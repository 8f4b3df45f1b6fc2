-- ===== src/Driver/Card.antt =====
-- The card as the driver's register accesses show it: the operations that a trace starts, each
-- with what the registers held at that moment. Independent of how the driver gets there.
use cryptodev.Prelude.{
  ℕ, ◌≡◌, ◌-◌, ◌+◌, bit_and, ◌&&◌, Bool, true, false, not, Option, none, some, List, [], ◌∷◌, ◌==◌,
  if◌then◌else◌,
}
use cryptodev.Memory.{Bytes, take, read, poke}
use cryptodev.Effects.{Trace, Env}
use cryptodev.Kernel.{Call}
use cryptodev.Driver.Device.{Job, ConfigMem}

-- The value last written to a register of 32 or 64 bits.
unfoldable pub last_write : ℕ → Trace Call → Option ℕ
last_write addr [] = none
last_write addr (e ∷ t) = elim e.call [
  | Call.iowrite32 v a ↦ if a == addr then some v else last_write addr t
  | Call.writeq v a ↦ if a == addr then some v else last_write addr t
  | _ ↦ last_write addr t
]

-- What was last copied into the card's memory at an address.
unfoldable pub last_copy : ℕ → Trace Call → Option (List ℕ)
last_copy addr [] = none
last_copy addr (e ∷ t) = elim e.call [
  | Call.memcpy_toio a bytes n ↦ if a == addr then some bytes else last_copy addr t
  | _ ↦ last_copy addr t
]

-- The bytes that the caller's memory last gave, that the caller was last given (with the address
-- they went to), and that the card last gave.
unfoldable pub last_from_user : Trace Call → Option (List ℕ)
last_from_user [] = none
last_from_user (e ∷ t) = elim e.call [
  | Call.copy_from_user src n ↦ some e.reply.bytes
  | _ ↦ last_from_user t
]

unfoldable pub last_to_user : Trace Call → Option (ℕ × List ℕ)
last_to_user [] = none
last_to_user (e ∷ t) = elim e.call [
  | Call.copy_to_user dst bytes n ↦ some (dst, bytes)
  | _ ↦ last_to_user t
]

unfoldable pub last_from_card : Trace Call → Option (List ℕ)
last_from_card [] = none
last_from_card (e ∷ t) = elim e.call [
  | Call.memcpy_fromio a n ↦ some e.reply.bytes
  | Call.dma_unmap_single h n ↦ some e.reply.bytes
  | _ ↦ last_from_card t
]

-- What was last mapped for the card at an address of its own.
unfoldable pub last_mapped : ℕ → Trace Call → Option (List ℕ)
last_mapped handle [] = none
last_mapped handle (e ∷ t) = elim e.call [
  | Call.dma_map_single bytes n ↦
      if e.reply.value == handle then some bytes else last_mapped handle t
  | _ ↦ last_mapped handle t
]

pub data Way : Type 0 where
  by_mmio by_dma : Way

-- What a start asks of the card: the registers that say what to do, and as the content what the driver
-- has last copied or mapped for it. Of the data that others put into the card's memory, by a mapping or
-- by an earlier run, the content says nothing.
pub record Operation : Type 0 where
  pub way : Way
  pub key : Option ℕ
  pub len : Option ℕ
  pub command : Option ℕ
  pub content : Option (List ℕ)

-- A write of the data's offset to `data_addr` starts the card on its own memory.
mmio_operation : ConfigMem → ℕ → Trace Call → Operation
mmio_operation s offset t = record {
  way = Way.by_mmio;
  key = last_write s.keys t;
  len = last_write s.len_msg t;
  command = last_write s.status t;
  content = last_copy (s.start + offset) t;
}

-- A write to `cmd` starts the card on the memory at the address in `addr_op`.
dma_operation : ConfigMem → ℕ → Trace Call → Operation
dma_operation s command t = record {
  way = Way.by_dma;
  key = last_write s.keys t;
  len = last_write s.dlen_msg t;
  command = some command;
  content = elim (last_write s.addr_op t) [ none ↦ none | some h ↦ last_mapped h t ];
}

-- The operations that a trace starts, the latest first.
unfoldable pub operations : ConfigMem → Trace Call → List Operation
unfolding mmio_operation dma_operation
operations s [] = []
operations s (e ∷ t) =
    let before = operations s t in
    elim e.call [
      | Call.writeq v a ↦
          if a == s.data_addr
          then mmio_operation s v t ∷ before
          else if a == s.cmd
          then dma_operation s v t ∷ before
          else before
      | _ ↦ before
    ]

-- The offsets in the card's own memory at which a trace starts operations, the latest first.
unfoldable pub offsets : ConfigMem → Trace Call → List ℕ
offsets s [] = []
offsets s (e ∷ t) = elim e.call [
  | Call.writeq v a ↦ if a == s.data_addr then v ∷ offsets s t else offsets s t
  | _ ↦ offsets s t
]

-- An operation without its content: what the registers say.
abbrev pub bare : List Operation → List Operation
bare [] = []
bare (o ∷ os) = record o { content = none } ∷ bare os

abbrev bit : Bool → ℕ → ℕ
bit true n = n
bit false n = 0

-- The operation that a job asks for, on a content of a length.
abbrev pub requested : Job → ℕ → Option (List ℕ) → Operation
requested job len content = record {
  way = if job.is_m then Way.by_mmio else Way.by_dma;
  key = some job.keyab;
  len = some len;
  command = some (
      if job.is_m
      then bit job.is_i 0x80 + bit (not job.is_e) 2
      else bit job.is_i 4 + bit (not job.is_e) 2 + 1);
  content = content;
}

-- The value last read from a register of 32 bits.
unfoldable pub last_read : ℕ → Trace Call → Option ℕ
last_read addr [] = none
last_read addr (e ∷ t) = elim e.call [
  | Call.ioread32 a ↦ if a == addr then some e.reply.value else last_read addr t
  | _ ↦ last_read addr t
]

-- The caller's memory after a trace. copy_to_user returns how many bytes it has left out at the end.
unfoldable pub memory : Bytes → Trace Call → Bytes
memory m [] = m
memory m (e ∷ t) = elim e.call [
  | Call.copy_to_user dst bytes n ↦ poke dst (take (n - e.reply.value) bytes) (memory m t)
  | _ ↦ memory m t
]

-- A copy from the caller's memory that leaves nothing out reads what is there.
pub record Reads (env : Env Call) (m : Bytes) : Type 0 where
  pub reads :
      (t : Trace Call) (p n : ℕ)
      → (env t (Call.copy_from_user p n)).value ≡ 0
      → (env t (Call.copy_from_user p n)).bytes ≡ read (memory m t) p n

-- The way of the operation that the card may still be at work on: the latest one, until a read of the
-- register of its way after the start has shown the lowest bit clear. That is the `status` register of
-- an operation by MMIO and the `cmd` register of one by DMA.
abbrev seen : Way → ℕ → Option Way → Option Way
seen way v none = none
seen Way.by_mmio v (some Way.by_mmio) = if bit_and v 1 == 0 then none else some Way.by_mmio
seen Way.by_mmio v (some Way.by_dma) = some Way.by_dma
seen Way.by_dma v (some Way.by_dma) = if bit_and v 1 == 0 then none else some Way.by_dma
seen Way.by_dma v (some Way.by_mmio) = some Way.by_mmio

unfoldable pub pending : ConfigMem → Trace Call → Option Way
pending s [] = none
pending s (e ∷ t) =
    let before = pending s t in
    elim e.call [
      | Call.writeq v a ↦
          if a == s.data_addr
          then some Way.by_mmio
          else if a == s.cmd
          then some Way.by_dma
          else before
      | Call.ioread8 a ↦ if a == s.status then seen Way.by_mmio e.reply.value before else before
      | Call.readq a ↦ if a == s.cmd then seen Way.by_dma e.reply.value before else before
      | _ ↦ before
    ]

abbrev is_at_rest : Option Way → Bool
is_at_rest none = true
is_at_rest (some way) = false

-- The driver has copied data to the card or mapped data for it since the latest start.
unfoldable pub is_loaded : ConfigMem → Trace Call → Bool
is_loaded s [] = false
is_loaded s (e ∷ t) =
    let before = is_loaded s t in
    elim e.call [
      | Call.memcpy_toio a bytes n ↦ if a == s.r1.start then true else before
      | Call.dma_map_single bytes n ↦ true
      | Call.writeq v a ↦ if a == s.data_addr then false else if a == s.cmd then false else before
      | _ ↦ before
    ]

-- The card was at rest when its latest operation was started, so that it has accepted it, as a card
-- that is busy accepts none; and the operation had data of its own, and not what one before left.
unfoldable pub accepted : ConfigMem → Trace Call → Bool
accepted s [] = false
accepted s (e ∷ t) =
    let before = accepted s t in
    let rests = is_at_rest (pending s t) && is_loaded s t in
    elim e.call [
      | Call.writeq v a ↦ if a == s.data_addr then rests else if a == s.cmd then rests else before
      | _ ↦ before
    ]

-- What the card does with its latest operation, if it has accepted it and has shown that it is done,
-- and if the operation has a content: it gives back the content encrypted or decrypted with the key.
-- `crypt true` encrypts. Nothing is said of what it gives while it is busy, and no other process writes
-- to the card's memory meanwhile.
pub record Crypts (env : Env Call) (space : ConfigMem) (crypt : Bool → ℕ → List ℕ → List ℕ)
    : Type 0 where
  pub by_mmio :
      (t : Trace Call) (job : Job) (n : ℕ) (content : List ℕ) (before : List Operation)
      → job.is_m ≡ true
      → accepted space t ≡ true
      → pending space t ≡ none
      → operations space t ≡ requested job n (some content) ∷ before
      → (env t (Call.memcpy_fromio space.r1.start n)).bytes ≡ crypt job.is_e job.keyab content
  pub by_dma :
      (t : Trace Call) (job : Job) (handle n : ℕ) (content : List ℕ) (before : List Operation)
      → job.is_m ≡ false
      → accepted space t ≡ true
      → pending space t ≡ none
      → operations space t ≡ requested job n (some content) ∷ before
      → (env t (Call.dma_unmap_single handle n)).bytes ≡ crypt job.is_e job.keyab content
