-- ===== src/Driver/Writers/Alone/Ways.antt =====
-- The two ways to run the card, as steps of a thread.
use cryptodev.Prelude.{
  ℕ, ℤ, neg, ◌+◌, ◌≡◌, ◌∙◌, refl, true, false, some, inl, inr, Bool-cases, arith, if◌then◌else◌,
}
use cryptodev.Effects.{Env, Trace, call, is_zero, when◌then◌else◌}
use cryptodev.Kernel.{Call}
use cryptodev.Driver.Device.{Job, setup_configspace}
use cryptodev.Driver.Card.{Operation, last_copy, last_write, last_mapped, requested, operations}
use cryptodev.Driver.Wait.{wait_for}
use cryptodev.Driver.Write.{
  msg_bytes, mmio_command, dma_command, mmio_start, mmio_finish, mmio_transfer, dma_start,
  dma_mapped, dma_transfer,
}
use cryptodev.Driver.Write.Command.{mmio_start-operations, dma_start-operations}
use cryptodev.Driver.Writers.{Registers, View, Args, Pc, Move, with_card, mmio_run, dma_run}
use cryptodev.Driver.Writers.Alone.{
  given, returned, latest, Shows, Ended, space, wait_status-Shows, wait_cmd-Shows,
  interrupted_with_irq,
}
use cryptodev.Driver.Writers.Alone.Ends.{
  first_step, when-Ended, out_up-Ended, mmio_finish-Ended, dma_finish-Ended,
}

module _ (env : Env Call) (start size : ℕ) where
  mmio_start-last_copy :
      (job : Job) (t : Trace Call)
      → last_copy (start + 0xA8) (mmio_start (space start size) job env t).1
        ≡ (if job.is_not_mm then some (msg_bytes job.msg) else last_copy (start + 0xA8) t)
  unfolding mmio_start last_copy setup_configspace
  mmio_start-last_copy job t = ground arith

  mmio_start-given :
      (job : Job) (t : Trace Call) → given (mmio_start (space start size) job env t).1 ≡ given t
  unfolding mmio_start given
  mmio_start-given job t = ground arith

  mmio_start-returned :
      (job : Job) (t : Trace Call)
      → returned (mmio_start (space start size) job env t).1 ≡ returned t
  unfolding mmio_start returned
  mmio_start-returned job t = ground arith

  -- From the write of `status` on; the trace is that of the whole start.
  mmio_loaded-Ended :
      (v : View) (a : Args) (fuel ptr : ℕ) (u : Trace Call) {r : ℤ}
      → v.job.is_m ≡ true
      → v.card.keys ≡ v.job.keyab
      → v.card.len_msg ≡ v.job.len
      → latest (operations (space start size) u)
        ≡ some (requested v.job v.job.len (some v.card.copied))
      → last_copy (start + 0xA8) u ≡ some v.card.copied
      → given u ≡ v.allocated
      → returned u ≡ v.freed
      → let (w, u') = wait_for v.job.is_i fuel (Call.ioread8 (space start size).status) env u in
        (mmio_finish (space start size) v.job ptr w env u').0.result ≡ some r
        → Ended start size v (Pc.mmio_loaded a) (mmio_finish (space start size) v.job ptr w env u')
  mmio_loaded-Ended v a fuel ptr u m k l o c g b e =
      let status = (space start size).status in
      let commanded : Registers = record v.card { status = mmio_command v.job } in
      let started : View =
        with_card v (record commanded { last_start = some (mmio_run commanded) }) in
      let s : Shows start size u started = record {
        area = c;
        ran = ground (arith, o);
        taken = g;
        freed = b;
      } in
      first_step env start size Move.set_status (
        first_step env start size Move.mmio_start (
          mmio_finish-Ended env start size started a ptr _ _
            (wait_status-Shows start size env v.job.is_i fuel status s)
            (interrupted_with_irq env v.job.is_i fuel (Call.ioread8 status) u) e))

  pub mmio_transfer-Ended :
      (v : View) (a : Args) (fuel ptr : ℕ) (t : Trace Call) {r : ℤ}
      → v.job.is_m ≡ true
      → v.card.keys ≡ v.job.keyab
      → last_write (space start size).keys t ≡ some v.job.keyab
      → Shows start size t v
      → (mmio_transfer fuel (space start size) v.job ptr env t).0.result ≡ some r
      → Ended start size v (Pc.keyed a) (mmio_transfer fuel (space start size) v.job ptr env t)
  unfolding mmio_transfer
  mmio_transfer-Ended v a fuel ptr t m k w s e =
      let sized : View = with_card v (record v.card { len_msg = v.job.len }) in
      let filled : View = with_card v (record sized.card { copied = msg_bytes v.job.msg }) in
      let ops = mmio_start-operations env start size v.job t w m in
      let area = mmio_start-last_copy v.job t in
      let taken = mmio_start-given v.job t ∙ s.taken in
      let freed = mmio_start-returned v.job t ∙ s.freed in
      first_step env start size (Move.mmio_len m) (elim (Bool-cases v.job.is_not_mm) [
        | inl b ↦ first_step env start size (Move.mmio_load b) (
            mmio_loaded-Ended filled a fuel ptr _ m k refl (ground (arith, ops))
              (ground (arith, area)) taken freed e)
        | inr b ↦ first_step env start size (Move.mmio_loaded_already b) (
            mmio_loaded-Ended sized a fuel ptr _ m k refl (ground (arith, ops, s.area))
              (ground (arith, area, s.area)) taken freed e)
      ])

  pub dma_mapped-Ended :
      (v : View) (a : Args) (fuel ptr handle : ℕ) (t : Trace Call) {r : ℤ}
      → v.job.is_m ≡ false
      → v.card.keys ≡ v.job.keyab
      → last_write (space start size).keys t ≡ some v.job.keyab
      → last_mapped handle t ≡ some (msg_bytes v.job.msg)
      → Shows start size t v
      → (dma_mapped fuel (space start size) v.job ptr handle env t).0.result ≡ some r
      → Ended start size v (Pc.keyed a) (dma_mapped fuel (space start size) v.job ptr handle env t)
  unfolding dma_mapped dma_start last_copy given returned
  dma_mapped-Ended v a fuel ptr handle t m k w h s e =
      let cmd = (space start size).cmd in
      let u = (dma_start (space start size) v.job handle env t).1 in
      let addressed : Registers = record v.card {
        mapping = (handle, msg_bytes v.job.msg);
        addr_op = handle;
        dlen_msg = v.job.len;
      } in
      let run : Operation = dma_run addressed (dma_command v.job) in
      let started : View = with_card v (record addressed { last_start = some run }) in
      let ops = dma_start-operations env start size v.job handle t w m in
      let s' : Shows start size u started = record {
        area = s.area;
        ran = ground (arith, ops);
        taken = s.taken;
        freed = s.freed;
      } in
      first_step env start size (Move.dma_map handle m) (
        first_step env start size Move.dma_addr (
          first_step env start size Move.dma_len (
            first_step env start size Move.dma_start (
              dma_finish-Ended env start size started a ptr handle _ _
                (wait_cmd-Shows start size env v.job.is_i fuel cmd s')
                (interrupted_with_irq env v.job.is_i fuel (Call.readq cmd) u) e))))

  pub dma_transfer-Ended :
      (v : View) (a : Args) (fuel ptr : ℕ) (t : Trace Call) {r : ℤ}
      → v.job.is_m ≡ false
      → v.card.keys ≡ v.job.keyab
      → last_write (space start size).keys t ≡ some v.job.keyab
      → Shows start size t v
      → (dma_transfer fuel (space start size) v.job ptr env t).0.result ≡ some r
      → Ended start size v (Pc.keyed a) (dma_transfer fuel (space start size) v.job ptr env t)
  unfolding dma_transfer last_copy last_write last_mapped operations given returned
  dma_transfer-Ended v a fuel ptr t m k w s e =
      let (h, t1) = call (Call.dma_map_single (msg_bytes v.job.msg) v.job.len) env t in
      let (x, t2) = call (Call.dma_mapping_error h.value) env t1 in
      let s' : Shows start size t2 v = record {
        area = s.area;
        ran = s.ran;
        taken = s.taken;
        freed = s.freed;
      } in
      when-Ended env start size (is_zero x) _ _
        (λ z e'. dma_mapped-Ended v a fuel ptr h.value t2 m k w (ground arith) s' e')
        (λ f e'.
          first_step env start size (Move.dma_map_error m)
            (out_up-Ended env start size v (neg 1) t2 s'))
        e
