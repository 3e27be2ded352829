-- ===== src/Codec/Decode/Sound/Run.antt =====
-- `amqp_decode` keeps to what a decoder may do, and the fuel suffices.
use libamqp.Prelude.{
  ℕ, zero, suc, ◌-◌, ◌≤◌, ◌<◌, ◌≡◌, ◌≢◌, refl, Bool, true, false, ◌&&◌, none, some, ◌==◌, not,
  arith, inl, inr, ◌⊎◌, sym,
}
use mathlib.Core.Path.{subst}
use libamqp.Codec.MetaData.{MetaData}
use libamqp.Codec.State.{
  AmqpType, State, M, aborted, pure, abort, assertion, fault, ◌>>=◌, type_is_invalid,
}
use libamqp.Codec.State.Hoare.{Ensures, Ensures-if, Ensures-bind, Ensures-mono, Extends}
use libamqp.Codec.Decode.Run.{run_decoder, checked, decode_type_into_result, amqp_decode}
use libamqp.Codec.Decode.Sound.Fixed.{Marked, Decoded}
use libamqp.Codec.Decode.Sound.Constructor.{width_ok, widths_ok, IsEntry}
use libamqp.Codec.Decode.Sound.Compound.{left}
use libamqp.Codec.Decode.Sound.Elements.{IntoSpec}
use libamqp.Codec.Decode.Sound.Dispatch.{run_decoder-Decoded}
use libamqp.Codec.Decode.Sound.Step.{Result, decode_with-Result}

ok : (m : MetaData) → IsEntry m → width_ok m.type_decoder m.width ≡ true
unfolding widths_ok
ok m h = ground arith

-- The assertion on a failure holds.
checked-Decoded :
    (m : M Bool) (p : ℕ) (s : State)
    → Ensures (m s) (Decoded p s)
    → Ensures ((m >>= checked p) s) (Decoded p s)
checked-Decoded m p s h = Ensures-bind m (checked p) s (Decoded p s) (Decoded p s) h (λ rc t d.
    Ensures-if rc (pure rc) _ t (Decoded p s) (λ q. d)
      (λ q.
        let x = d.1 q in
        Ensures-if (not ((t.types p).invalid_cause == 0) && type_is_invalid (t.types p)) (pure rc)
          (abort assertion) t (Decoded p s) (λ r. d) (λ r. absurd (ground arith))))

into-IntoSpec : (fuel : ℕ) → IntoSpec (decode_type_into_result fuel) fuel
unfolding decode_type_into_result
into-IntoSpec zero p s h lt (m, e, w) b = absurd (omega arith)
into-IntoSpec (suc fuel) p s h lt (m, e, w) b =
    subst
      (λ o.
        Ensures
          (elim o [
            | none ↦ aborted fault
            | some meta ↦
                (run_decoder (decode_type_into_result fuel) meta.type_decoder meta p >>= checked p)
                  s
          ])
          (Decoded p s))
      (sym e)
      (checked-Decoded (run_decoder (decode_type_into_result fuel) m.type_decoder m p) p s (
        run_decoder-Decoded (decode_type_into_result fuel) m p fuel s h lt (into-IntoSpec fuel)
          (omega arith) m.type_decoder (ok m w)))

-- `amqp_decode` on any bytes, with any objects in the store, from a read point that is not behind
-- the write point, either ends by `not_implemented` or returns. It then has read no value,
-- character or uuid behind the write point, since such a read is a fault, and the read point is not
-- behind the write point either; the bytes and all older objects are as they were; and it returns
-- null exactly at the end of the buffer, else a new object, and has read on.
pub amqp_decode_lem :
    (s : State) → s.buffer.index ≤ s.buffer.size → Ensures (amqp_decode s) (Result s)
unfolding amqp_decode
amqp_decode_lem s h =
    decode_with-Result (decode_type_into_result (suc (left s))) (suc (left s)) s
      (into-IntoSpec (suc (left s))) h (omega arith)

-- `decode_type_into_result` on an object whose constructor has a width that its decoder knows, as
-- all entries of the table have, given more rounds than there are bytes left, ends by
-- `not_implemented` or with a result. It then has read no value, character or uuid behind the write
-- point, since such a read is a fault, and the read point is not behind the write point either; the
-- bytes and the other older objects are as they were, and where it reports a failure the object is
-- flagged invalid and has a cause. The read point is not behind the write point at first, and the
-- object has been allocated.
pub decode_type_into_result_lem :
    (fuel p : ℕ) (meta : MetaData) (s : State)
    → s.buffer.index ≤ s.buffer.size
    → p < s.next_type
    → (s.types p).meta_data ≡ some meta
    → IsEntry meta
    → s.buffer.size - s.buffer.index < fuel
    → Ensures (decode_type_into_result fuel p s) (λ rc t.
      Extends p s t
      × ((rc ≡ true) ⊎ (((t.types p).invalid_cause ≢ 0) × (type_is_invalid (t.types p) ≡ true))))
decode_type_into_result_lem fuel p meta s h lt e w b =
    Ensures-mono (decode_type_into_result fuel p s) (Decoded p s) _
      (into-IntoSpec fuel p s h lt (meta, e, w) b) (λ rc t d. (d.0, split (t.types p) rc d.1))
  where
    split : (x : AmqpType) (rc : Bool) → (rc ≡ false → Marked x) → (rc ≡ true) ⊎ Marked x
    split x true k = inl refl
    split x false k = inr (k refl)
