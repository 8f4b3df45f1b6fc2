-- ===== src/Driver/Device/Layout.antt =====
-- The register map of `setup_configspace`: where each register and region lies.
use cryptodev.Prelude.{ℕ, ◌+◌, ◌-◌, ◌≤◌, ◌≡◌, List, [], ◌∷◌, arith}
use cryptodev.Driver.Device.{MemRegion, ConfigMem, setup_configspace, buffersize}

abbrev area : ℕ → ℕ → MemRegion
area first bytes = record { start = first; last = first + bytes - 1 }

-- The registers, 4 or 8 bytes wide as the driver accesses them, and the regions between them.
unfoldable pub areas : ConfigMem → List MemRegion
areas m =
    area m.id 4
    ∷ area m.live 4
    ∷ area m.keys 4
    ∷ area m.len_msg 4
    ∷ m.r5
    ∷ area m.status 4
    ∷ area m.interrupt_status 4
    ∷ m.r4
    ∷ area m.interrupt_raise 4
    ∷ area m.interrupt_ack 4
    ∷ m.r3
    ∷ area m.data_addr 8
    ∷ m.r2
    ∷ area m.addr_op 8
    ∷ area m.dlen_msg 8
    ∷ area m.cmd 8
    ∷ m.r1
    ∷ []

-- The areas follow one another from an address on and end before another, with no gap and no
-- overlap.
abbrev pub Fills : (first end : ℕ) → List MemRegion → Type 0
Fills first end [] = first ≡ end
Fills first end (r ∷ rs) = (r.start ≡ first) × (r.start ≤ r.last) × Fills (r.last + 1) end rs

-- The registers and the regions between them fill the card's 1 MB exactly, and the region that
-- takes the data holds a buffer of the size that the library sends at once.
pub registers_fill :
    (start size : ℕ)
    → let m = setup_configspace start size in
      Fills m.start (start + 0x100000) (areas m) × (m.r1.start + buffersize ≤ m.r1.last)
unfolding setup_configspace areas
registers_fill start size = ground arith
