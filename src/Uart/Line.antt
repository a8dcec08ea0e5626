-- ===== src/Uart/Line.antt =====
-- The sending side of a port, as MsmGeniWriteTxFifo of debug_uart.c relies on it.
use cr_dk.Uart.Queue.{bytes_from}
use cr_dk.Uart.Types.{
  s_irq_clr, m_irq_status, m_irq_clr, m_irq_en, m_cmd0, tx_trans_len, tx_fifo_n, tx_timeout_us,
}
use cr_dk.Bits.{u64}
use cr_dk.Mmio.{Bus}
use cr_dk.Base.{
  ℕ, ◌+◌, ◌-◌, ◌/◌, ◌^◌, ◌≤◌, ◌<◌, ◌≡◌, refl, Bool, true, false, not, ◌&&◌, List, ◌++◌, arith, leb,
  ◌==◌, if◌then◌else◌, testbit,
}

-- The bytes that were sent, the length set for the next transfer, whether a command has been started
-- that has not got its word yet, the microseconds until the word is out, and whether the end of a
-- transfer is reported, and by an interrupt.
pub record Line : Type 0 where
  pub sent : List ℕ
  pub len : ℕ
  pub started : Bool
  pub left : ℕ
  pub done : Bool
  pub enabled : Bool

-- A write of `v` to the register at `off`. A word is sent only if a command was started for it and the
-- word before is out; `takes` is how long so many bytes take. Without that the word is lost.
unfoldable pub written : (ℕ → ℕ) → ℕ → ℕ → Line → Line
written takes off v t =
    if off == tx_fifo_n
    then (if t.started && (t.left == 0)
        then record t { sent = t.sent ++ bytes_from t.len 0 v; started = false; left = takes t.len }
        else t)
    else if off == m_cmd0
    then record t { started = v / 2 ^ 27 == 1 }
    else if off == tx_trans_len
    then record t { len = v }
    else if off == m_irq_clr
    then record t { done = t.done && not (testbit v 0) }
    else if off == m_irq_en
    then record t { enabled = testbit v 0 }
    else t

-- So many microseconds; the end of a transfer is reported once, when it comes.
unfoldable pub waited : ℕ → Line → Line
waited us t =
    if t.left == 0
    then t
    else if leb t.left us
    then record t { left = 0; done = true }
    else record t { left = t.left - us }

-- A transmitter at `base` behaves like that. Reading changes nothing, the status register reports the
-- end of a transfer, the interrupt comes if it is switched on, and four bytes take no more than a second.
pub record IsTransmitter {S : Type 0} (bus : Bus S) (base : ℕ) (raised : S → Bool) (line : S → Line)
    (takes : ℕ → ℕ) : Type 0 where
  pub wrote :
      (off v : ℕ) (s : S)
      → off < 0x1000
      → line (bus.poke (u64 (base + off)) v s) ≡ written takes off v (line s)
  pub reads : (a : ℕ) (s : S) → line (bus.after_read a s) ≡ line s
  pub waits : (us : ℕ) (s : S) → line (bus.delay us s) ≡ waited us (line s)
  pub reports : (s : S) → testbit (bus.peek s (u64 (base + m_irq_status))) 0 ≡ (line s).done
  pub raises : (s : S) → (line s).done ≡ true → (line s).enabled ≡ true → raised s ≡ true
  pub positive : (n : ℕ) → 0 < takes n
  pub bounded : (n : ℕ) → n ≤ 4 → takes n ≤ tx_timeout_us

-- No transfer is running, and the end of none waits to be taken.
pub record IsIdle (t : Line) : Type 0 where
  pub out : t.left ≡ 0
  pub taken : t.done ≡ false

-- A command, its length and its word.
pub written-word :
    (takes : ℕ → ℕ) (cmd n v : ℕ) (t : Line)
    → (cmd / 2 ^ 27 == 1) ≡ true
    → t.left ≡ 0
    → written takes tx_fifo_n v (written takes tx_trans_len n (written takes m_cmd0 cmd t))
      ≡ record t { sent = t.sent ++ bytes_from n 0 v; len = n; started = false; left = takes n }
unfolding written
written-word takes cmd n v t opcode out = ground (arith, opcode, out)

pub waited-last :
    (t : Line) → 0 < t.left → t.left ≤ 1 → waited 1 t ≡ record t { left = 0; done = true }
unfolding waited
waited-last t some_left last = ground arith

pub waited-on : (t : Line) → 1 < t.left → waited 1 t ≡ record t { left = t.left - 1 }
unfolding waited
waited-on t more = ground arith

-- Clearing the interrupts that are reported.
pub written-m_irq_clr :
    (takes : ℕ → ℕ) (v : ℕ) (t : Line)
    → testbit v 0 ≡ t.done
    → written takes m_irq_clr v t ≡ record t { done = false }
unfolding written
written-m_irq_clr takes v t e = ground (arith, e)

-- The other interrupts of the port have no part in it.
pub written-s_irq_clr : (takes : ℕ → ℕ) (v : ℕ) (t : Line) → written takes s_irq_clr v t ≡ t
unfolding written
written-s_irq_clr takes v t = refl

pub written-m_irq_en :
    (takes : ℕ → ℕ) (v : ℕ) (t : Line)
    → written takes m_irq_en v t ≡ record t { enabled = testbit v 0 }
unfolding written
written-m_irq_en takes v t = refl

-- Clearing interrupts sends nothing.
pub written-clear :
    (takes : ℕ → ℕ) (v : ℕ) (t : Line)
    → written takes m_irq_clr v t ≡ record t { done = t.done && not (testbit v 0) }
unfolding written
written-clear takes v t = refl
