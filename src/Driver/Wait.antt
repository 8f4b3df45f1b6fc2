-- ===== src/Driver/Wait.antt =====
-- How `pci_write` waits for the card: the busy loops and `wait_event_interruptible`.
pub mod Laws
pub mod Progress
pub mod Agree
use cryptodev.Prelude.{ℕ, zero, suc, Bool, true, false, not, ◌==◌, bit_and}
use cryptodev.Effects.{Answer, call, is_zero, when◌then◌else◌}
use cryptodev.Kernel.{Call, KernelIo}

-- How a wait ends; `waiting` is a wait that has not ended within the fuel.
pub data Waited : Type 0 where
  ready interrupted waiting : Waited

-- `ioread8(space->status) & 0x01` and `readq(space->cmd) & 0x1`, on the value that was read
abbrev pub is_busy : Answer → Bool
is_busy a = not (bit_and a.value 1 == 0)

-- `while (read & 1);`, where `read` is the register access. Each read takes one unit of fuel.
unfoldable pub busy_wait : ℕ → Call → KernelIo Waited
busy_wait zero read env t = (Waited.waiting, t)
busy_wait (suc fuel) read env t =
    let (a, t') = call read env t in
    elim (is_busy a) [ true ↦ busy_wait fuel read env t' | false ↦ (Waited.ready, t') ]

-- `wait_event_interruptible(wq, !(read & 1))`: the condition is evaluated until it holds. While it
-- does not, the kernel answers `wait_event`: 0 to evaluate it again, as after a wake-up, and any
-- other number if a signal ends the wait.
unfoldable pub event_wait : ℕ → Call → KernelIo Waited
event_wait zero read env t = (Waited.waiting, t)
event_wait (suc fuel) read env t =
    let (a, t') = call read env t in
    elim (is_busy a) [
      | false ↦ (Waited.ready, t')
      | true ↦
          let (s, t'') = call Call.wait_event env t' in
          elim (is_zero s) [
            | true ↦ event_wait fuel read env t''
            | false ↦ (Waited.interrupted, t'')
          ]
    ]

-- The wait of a job, with interrupts or without.
abbrev pub wait_for : Bool → ℕ → Call → KernelIo Waited
wait_for is_i fuel read = when is_i then event_wait fuel read else busy_wait fuel read
