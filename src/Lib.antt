-- ===== src/Lib.antt =====
-- CrDK: device libraries for Qualcomm platforms, built for UEFI and for Windows. This library models the
-- parts that decide something: which interrupt goes to which handler, which command set a request to
-- the power manager takes, what a pin's registers hold.
--
-- A device is a `Bus` (Mmio.antt): what a read of an address returns and what reads, writes and waits
-- do to the hardware. Code on the hardware is a function of the hardware's state, in the monad `M`, and
-- each C function is one such function with the same guards and the same order of accesses. A NULL
-- pointer is `none`, an out parameter written on success is a `Result`, and an assertion that fails is
-- `none`. UINT8, UINT16 and UINT32 values are natural numbers, and what wraps in C is cut by `u16`, `u32`
-- or `u64`. What a register holds is told under `IsStorage` (Mmio/Storage.antt), registers that keep
-- what is written to them; `ram` is one.
--
-- Parts:
--   Base, Bits      lists, digits of a number; the macros of Include/oskal/common.h.
--   Status, Mmio    Include/oskal/cr_status.h; Include/oskal/cr_memory.h and Library/OskMemoryLib.
--   SlotTable       the table of slots filled from the front that oskinterrupt.c and gpio_irq.c share.
--   Interrupt       Library/OskInterruptLib/oskinterrupt.c: `register_interrupt` is CrRegisterInterrupt,
--                   `unregister_interrupt` CrUnregisterInterrupt, `interrupt_entry`
--                   CrInternalInterruptEntry. The HardwareInterrupt2 protocol is a parameter.
--   Pdc             Library/PdcLib/pdc.c and pdc_irq.c, on top of Interrupt.
--   Cmddb           Library/CmdDBLib/cmddb.c and Include/Library/cmddb.h: `find_cmddb_entry` is
--                   FindCmdDBEntry, over the bytes behind the header.
--   Rpmh            Library/RpmhLib/rpmh.c: `rpmh_write` is RpmhWrite, `claim_free_tcs` ClaimFreeTcs,
--                   `tx_done_isr` RpmhDrvTcsTxDoneIsr, `rpmh_lib_init` RpmhLibInit.
--   Gpio            Library/GpioLib/gpio.c and gpio_internal.h: `gpio_set_config` is GpioSetConfig,
--                   `gpio_read_config` GpioReadConfig, `gpio_set_interrupt_cfg` GpioSetInterruptCfg.
--                   Gpio/Irq.antt is gpio_irq.c, on top of Pdc, Interrupt and SlotTable.
--   Trng            Library/QcomTrngLib/QcomTrngLib.c: `get_arm_trng_entropy` is GetArmTrngEntropy.
--   Uart            Library/DebugUartLib/debug_uart.c: `msm_geni_serial_isr` is MsmGeniSerialIsr, which
--                   fills a ring of bytes, `msm_geni_write_tx_fifo` MsmGeniWriteTxFifo. What they rely
--                   on in the hardware is Uart/Receiver.antt for the receive FIFO and Uart/Line.antt for
--                   the transmitter, which loses a word without a command or before its time; the
--                   instances are in Uart/Tests.antt. Uart/Serial.antt
--                   is Driver/DebugUartSerialCrDxe, which reads the ring. The handler is registered
--                   through Interrupt.
--   Memmap          Library/OskMemmapLib/oskmemmap.c; the DXE services are a parameter.
--   Clock           Library/ClockLib: clock.c with `clock_enable` for ClockEnable and
--                   `clock_rcg2_set_rate` for ClockRcg2SetRate, gdsc.c with `clock_gdsc_enable` for
--                   ClockGdscEnable, debugcc.c with `debugcc_measure_clock_rate` for
--                   DebugccMeasureClockRate. ClockLibInit maps its controllers through Memmap.
--   Driver          the drivers under Driver/ that publish the libraries as protocols or use them:
--                   CommandDatabase is CmdDBCrDxe, PowerManager RpmhCrDxe, which looks names up in the
--                   former's protocol, Pins GpioCrDxe, Bridge Lt9611uxcCrDxe, which uses Pins, and
--                   Clocks ClockCrDxe. The services that locate and install protocols are parameters.
--
-- Bounds: the table of interrupts has MAX_INTERRUPT_ENTRIES slots and is searched once from front to
-- back. The loop of GetArmTrngEntropy runs on one round more than the time in microseconds, since a
-- round waits at least one. WriteTcsRegSync reads back at most RPMH_WRITE_MAX_WAIT_TIME times, and
-- every other loop goes round as often as a count in its data says, so all of them are recursion on
-- that count. The wait of MsmGeniWriteTxFifo for space in the FIFO has no limit in the source and gets
-- fuel; it ends without a round when the FIFO has space at first. The wait for a word to be sent takes
-- 1000000 rounds at most, in each of which the port's interrupt may come.
--
-- Not modelled: log lines, memory barriers, and test code that is compiled out.
-- The port's interrupt is taken only where the code waits, and a parent of a clock that is NULL is passed
-- over. A word that is sent takes a time that depends on its length only. CrInterruptInit's assertion is
-- left out: without the protocol it returns CR_NOT_FOUND, as in a build without assertions. A read of the
-- serial device runs between two interrupts, or with the handler between its loop and its last store
-- (`serial_read_interrupted`), and at no other point. The Windows form of the interrupt library is left out.
pub mod Base
pub mod Bits
pub mod Status
pub mod Mmio
pub mod SlotTable
pub mod Interrupt
pub mod Pdc
pub mod Cmddb
pub mod Rpmh
pub mod Gpio
pub mod Trng
pub mod Uart
pub mod Clock
pub mod Memmap
pub mod Driver
