-- ===== src/Trng/Tests.antt =====
-- The random numbers of a device that has a word ready after some time; its state is the time.
use cr_dk.Trng.Wait.{IsClock}
use cr_dk.Trng.Entropy.{get_arm_trng_entropy-Answered, entropy, Answered}
use cr_dk.Trng.{ReturnStatus, CrTrngConfig, get_arm_trng_entropy}
use cr_dk.Base.{ℕ, ◌+◌, ◌≡◌, refl, true, some, [], ◌∷◌, ltb, ◌==◌, if◌then◌else◌}
use cr_dk.Mmio.{Bus}

abbrev clocked : Bus ℕ
clocked = record {
  peek = λ s a. if a == 0x1_0004 then (if ltb s 25 then 0 else 1) else 0xaabb_ccdd;
  after_read = λ a s. s;
  poke = λ a v s. s;
  delay = λ us s. s + us;
}

clocked-IsClock : IsClock clocked (λ s. s)
clocked-IsClock = record { clock-delay = λ us s. refl; clock-after_read = λ a s. refl }

abbrev config : ℕ → CrTrngConfig
config time = record {
  base_address = 0x1_0000;
  mmio_size = 0x1000;
  data_out_offset = 0;
  status_offset = 4;
  data_available_mask = 1;
  max_entropy_bits = 32;
  poll_delay_us = 10;
  timeout_us = time;
}

two_bytes :
    (get_arm_trng_entropy clocked (some (config 100)) 16 8 true 0).0
    ≡ some (ReturnStatus.return_success, 0xdd ∷ 0xcc ∷ [])
unfolding get_arm_trng_entropy
two_bytes = refl

too_early :
    get_arm_trng_entropy clocked (some (config 15)) 16 8 true 0
    ≡ (some (ReturnStatus.return_not_ready, []), 15)
unfolding get_arm_trng_entropy
too_early = refl

get_arm_trng_entropy-Answered_example :
    Answered clocked (config 15) 16 8 true 0 (λ s. s) (entropy clocked (config 15) 16 8 true 0)
get_arm_trng_entropy-Answered_example =
    get_arm_trng_entropy-Answered clocked (config 15) 16 8 true 0 clocked-IsClock
