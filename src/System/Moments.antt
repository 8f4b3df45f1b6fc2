-- ===== src/System/Moments.antt =====
-- The moments of a run of the library: the traces that a trace goes through.
use cryptodev.Prelude.{
  ℕ, zero, suc, ◌+◌, ◌%◌, ◌^◌, ◌/◌, ◌==◌, if◌then◌else◌, ℤ, pos, ◌≡◌, sym, subst, some, ltb, [],
  ◌∷◌, inl, inr, arith, Bool-cases,
}
use cryptodev.Effects.{Env, Trace, Event, call}
use cryptodev.Driver.Device.{Request, buffersize, mmap, unmmap}
use cryptodev.Crypter.Syscalls.{Syscall, failed, failed_long, error, create_handle, close_handle}
use cryptodev.Crypter.Settings.{ConfigType, u32_bytes, key_of, config_byte, set_key, set_config}
use cryptodev.Crypter.Transfer.{count_of, rest_of, write_chunks, transfer}

-- The second trace goes on from the first.
infix 4 ◌⊑◌
pub data ◌⊑◌ : Trace Syscall → Trace Syscall → Type 0 where
  same : {t : Trace Syscall} → t ⊑ t
  later : {t t' : Trace Syscall} (e : Event Syscall) → t ⊑ t' → t ⊑ e ∷ t'

pub ⊑-trans : (t u v : Trace Syscall) → t ⊑ u → u ⊑ v → t ⊑ v
⊑-trans t u _ a same = a
⊑-trans t u _ a (later e b) = later e (⊑-trans t u _ a b)

module _ (env : Env Syscall) where
  pub write_chunks-goes_on :
      (k : ℕ) (fd : ℤ) (addr length : ℕ) (t : Trace Syscall)
      → t ⊑ (write_chunks k fd addr length env t).1
  unfolding write_chunks
  write_chunks-goes_on zero fd addr length t = same
  write_chunks-goes_on (suc k) fd addr length t =
      let (w, t') = call (Syscall.write fd addr (count_of length)) env t in
      elim (Bool-cases (failed_long w)) [
        | inl bad ↦
            let step : write_chunks (suc k) fd addr length env t ≡ (some error, t') =
              ground arith in
            subst (λ x. t ⊑ x.1) (sym step) (later _ same)
        | inr good ↦ elim (Bool-cases (ltb 0 (rest_of length))) [
          | inl more ↦
              let next =
                write_chunks k fd ((addr + count_of length) % 2 ^ 64) (rest_of length) env t' in
              let step : write_chunks (suc k) fd addr length env t ≡ next = ground arith in
              subst (λ x. t ⊑ x.1) (sym step)
                (⊑-trans t t' next.1 (later _ same)
                  (write_chunks-goes_on k fd _ (rest_of length) t'))
          | inr last ↦
              let step : write_chunks (suc k) fd addr length env t
                  ≡ (some (pos (rest_of length)), t') =
                ground arith in
              subst (λ x. t ⊑ x.1) (sym step) (later _ same)
        ]
      ]

  pub transfer-goes_on :
      (direction : ℕ) (fd : ℤ) (addr length is_mapped : ℕ) (t : Trace Syscall)
      → t ⊑ (transfer direction fd addr length is_mapped env t).1
  unfolding transfer
  transfer-goes_on direction fd addr length is_mapped t =
      let (e, t1) = call (Syscall.ioctl fd Request.set_encryp (direction ∷ [])) env t in
      let value = if is_mapped == 0 then unmmap else mmap in
      let (m, t2) = call (Syscall.ioctl fd Request.set_mmap__ (value ∷ [])) env t1 in
      let out = transfer direction fd addr length is_mapped env t in
      elim (Bool-cases (failed e)) [
        | inl bad ↦
            let step : out ≡ (some error, t1) = ground arith in
            subst (λ x. t ⊑ x.1) (sym step) (later _ same)
        | inr good ↦ elim (Bool-cases (failed m)) [
          | inl bad ↦
              let step : out ≡ (some error, t2) = ground arith in
              subst (λ x. t ⊑ x.1) (sym step) (later _ (later _ same))
          | inr fine ↦
              let loop = write_chunks (length / buffersize + 1) fd addr length env t2 in
              let step : out ≡ loop = ground arith in
              subst (λ x. t ⊑ x.1) (sym step)
                (⊑-trans t t2 loop.1 (later _ (later _ same))
                  (write_chunks-goes_on (length / buffersize + 1) fd addr length t2))
        ]
      ]

  pub close_handle-goes_on : (fd : ℤ) (t : Trace Syscall) → t ⊑ (close_handle fd env t).1
  unfolding close_handle
  close_handle-goes_on fd t = elim (Bool-cases (failed (call (Syscall.close fd) env t).0)) [
    | inl bad ↦ rw bad (later _ (later _ same))
    | inr good ↦ rw good (later _ same)
  ]

  pub create_handle-goes_on : (t : Trace Syscall) → t ⊑ (create_handle env t).1
  unfolding create_handle
  create_handle-goes_on t = later _ same

  pub set_key-goes_on : (fd : ℤ) (a b : ℕ) (t : Trace Syscall) → t ⊑ (set_key fd a b env t).1
  unfolding set_key
  set_key-goes_on fd a b t =
      let bytes = u32_bytes (key_of a b) in
      elim (Bool-cases (failed (call (Syscall.ioctl fd Request.set_key___ bytes) env t).0)) [
        | inl bad ↦ rw bad (later _ same)
        | inr good ↦ rw good (later _ same)
      ]

  pub set_config-goes_on :
      (fd : ℤ) (type : ConfigType) (value : ℕ) (t : Trace Syscall)
      → t ⊑ (set_config fd type value env t).1
  unfolding set_config
  set_config-goes_on fd type value t =
      let bytes = config_byte type value ∷ [] in
      elim (Bool-cases (failed (call (Syscall.ioctl fd Request.set_config bytes) env t).0)) [
        | inl bad ↦ rw bad (later _ same)
        | inr good ↦ rw good (later _ same)
      ]
