-- ===== src/Driver/Writers/Local.antt =====
-- What a step of one thread keeps and changes, and what a thread relies on at each place.
use cryptodev.Prelude.{
  ℕ, ◌+◌, ◌%◌, ◌^◌, ◌≡◌, ◌⊎◌, refl, Bool, true, false, some, if◌then◌else◌, arith,
}
use cryptodev.Driver.Device.{Job}
use cryptodev.Driver.Card.{Operation, requested}
use cryptodev.Driver.Write.{msg_bytes, mmio_command}
use cryptodev.Driver.Writers.{
  Registers, View, Args, Pc, Move, inside, entered, sized, allocated, filled, locked, keyed,
  mmio_sized, mmio_loaded, mmio_commanded, mmio_running, dma_mapped, dma_addressed, dma_sized,
  dma_running, down, up,
}

abbrev pub hold : Pc → ℕ
hold p = if inside p then 1 else 0

-- The semaphore counts who is not inside.
pub Move-semaphore :
    {v w : View} {p q : Pc} → Move v p w q → w.semaphore + hold q ≡ v.semaphore + hold p
Move-semaphore (down k free) = omega arith
Move-semaphore up = omega arith
Move-semaphore _ = refl

-- Only who is inside writes to the card.
pub Move-card : {v w : View} {p q : Pc} → Move v p w q → inside p ≡ false → w.card ≡ v.card
Move-card up out = ground arith
Move-card _ out = ground arith

-- The operation that a call asks for. On mapped memory the content that it records is what
-- the driver has last copied to the data area.
abbrev pub asked : Job → Args → Registers → Operation
asked job a card =
    requested job (a.len % 2 ^ 32) (some (if job.is_not_mm then a.bytes else card.copied))

-- A call may go on with mapped memory only by MMIO.
abbrev Allowed : Job → Type 0
Allowed job = (job.is_not_mm ≡ true) ⊎ (job.is_m ≡ true)

abbrev Sized : Args → Job → Type 0
Sized a job = Allowed job × (job.len ≡ a.len % 2 ^ 32)

abbrev HasBytes : Bool → Args → Job → Type 0
HasBytes true a job = msg_bytes job.msg ≡ a.bytes
HasBytes false a job = Unit

abbrev Filled : Args → Job → Type 0
Filled a job = Sized a job × HasBytes job.is_not_mm a job

abbrev Loaded : Bool → Args → Registers → Type 0
Loaded true a card = card.copied ≡ a.bytes
Loaded false a card = Unit

abbrev OnMmio : Args → Registers → Job → Type 0
OnMmio a card job =
    Filled a job × (card.keys ≡ job.keyab) × (job.is_m ≡ true) × (card.len_msg ≡ job.len)

abbrev OnDma : Args → Registers → Job → Type 0
OnDma a card job =
    Filled a job × (card.keys ≡ job.keyab) × (job.is_m ≡ false) × (card.mapping.1 ≡ a.bytes)

-- What a thread relies on, by where it stands: that its job is its own call's, and while it is
-- inside that the registers are too.
abbrev pub Relies : Pc → Registers → Job → Type 0
Relies (entered a) card job = Allowed job
Relies (sized a) card job = Sized a job
Relies (allocated a) card job = Sized a job × (job.is_not_mm ≡ true)
Relies (filled a) card job = Filled a job
Relies (locked a) card job = Filled a job
Relies (keyed a) card job = Filled a job × (card.keys ≡ job.keyab)
Relies (mmio_sized a) card job = OnMmio a card job
Relies (mmio_loaded a) card job = OnMmio a card job × Loaded job.is_not_mm a card
Relies (mmio_commanded a) card job =
    OnMmio a card job × Loaded job.is_not_mm a card × (card.status ≡ mmio_command job)
Relies (mmio_running a) card job = card.last_start ≡ some (asked job a card)
Relies (dma_mapped a h) card job = OnDma a card job × (card.mapping.0 ≡ h)
Relies (dma_addressed a) card job = OnDma a card job × (card.mapping.0 ≡ card.addr_op)
Relies (dma_sized a) card job =
    OnDma a card job × (card.mapping.0 ≡ card.addr_op) × (card.dlen_msg ≡ job.len)
Relies (dma_running a) card job = card.last_start ≡ some (asked job a card)
Relies _ card job = Unit

-- A thread that is not inside relies on no register.
pub Relies-outside :
    (p : Pc) (card card' : Registers) (job : Job)
    → inside p ≡ false
    → Relies p card job
    → Relies p card' job
Relies-outside (entered a) card card' job out r = r
Relies-outside _ card card' job out r = ground arith

-- A step of a thread establishes what it relies on next.
pub Move-Relies :
    {v w : View} {p q : Pc} → Move v p w q → Relies p v.card v.job → Relies q w.card w.job
Move-Relies (Move.enter a ok) r = ok
Move-Relies (Move.use_mapped b) r = ground arith
Move-Relies (Move.alloc p b) r = ground arith
Move-Relies (Move.mmio_len b) r = ground arith
Move-Relies (Move.mmio_load b) r = ground arith
Move-Relies (Move.mmio_loaded_already b) r = ground arith
Move-Relies Move.mmio_start r = ground arith
Move-Relies (Move.dma_map h b) r = ground arith
Move-Relies Move.dma_start r = ground arith
Move-Relies _ r = ground arith
