-- ===== src/Codec/Cleanup/Stale.antt =====
-- What is given back with an empty list that `amqp_decode` has made.
use libamqp.Prelude.{
  ℕ, suc, ◌<◌, ◌≡◌, refl, ap, ◌∙◌, true, false, some, [], ◌∷◌, ◌==◌, Bool, Option, List,
  if◌then◌else◌, if_false, arith,
}
use libamqp.Buffer.{unchecked_getc_at}
use libamqp.Codec.MetaData.Search.{find_code, type_meta_data_lookup_lem}
use libamqp.Codec.MetaData.Table.{meta_data_list_0}
use libamqp.Codec.Flags.{is_list}
use libamqp.Codec.State.{AmqpType, State, type_is_invalid}
use libamqp.Codec.State.Hoare.{Returns}
use libamqp.Codec.Decode.Fixed.{fixed_zero_width, set_position}
use libamqp.Codec.Decode.Compound.{list_0}
use libamqp.Codec.Decode.Run.{run_decoder, amqp_decode}
use libamqp.Codec.RoundTrip.Reading.{amqp_decode-started}
use libamqp.Codec.Cleanup.{
  Freed, then_frees, array, object, deallocate_elements, deallocate_array, cleanup_type,
  deallocate_type,
}

cleanup_empty :
    (deallocate : ℕ → Option (List Freed)) (t : AmqpType) (p : ℕ)
    → t.typedef_flags ≡ is_list
    → t.word ≡ 0
    → cleanup_type deallocate t p ≡ some (if t.has_elements then array p ∷ [] else [])
unfolding cleanup_type deallocate_array deallocate_elements
cleanup_empty deallocate t p flags none_in = rw (flags, none_in) (array_freed t.has_elements)
  where
    array_freed :
        (has : Bool)
        → then_frees (if has then some (array p ∷ []) else some []) (some [])
          ≡ some (if has then array p ∷ [] else [])
    array_freed true = refl
    array_freed false = refl

-- What goes back with a list that has no elements.
deallocate_empty :
    (types : ℕ → AmqpType) (fuel p : ℕ)
    → 0 < p
    → (types p).typedef_flags ≡ is_list
    → (types p).word ≡ 0
    → deallocate_type types (suc fuel) p
      ≡ some (if (types p).has_elements then array p ∷ object p ∷ [] else object p ∷ [])
unfolding deallocate_type
deallocate_empty types fuel p pos flags none_in =
    let off : (p == 0) ≡ false = ground (arith, pos) in
    if_false (some []) off
    ∙ ap (λ c. then_frees c (some (object p ∷ [])))
        (cleanup_empty (deallocate_type types fuel) (types p) p flags none_in)
    ∙ object_freed (types p).has_elements
  where
    object_freed :
        (has : Bool)
        → then_frees (some (if has then array p ∷ [] else [])) (some (object p ∷ []))
          ≡ some (if has then array p ∷ object p ∷ [] else object p ∷ [])
    object_freed true = refl
    object_freed false = refl

-- A list without elements, the code 0x45: `amqp_decode` returns a valid object, and when it is given
-- back, so is an array of pointers exactly if the memory of the object has held a pointer to one
-- before. There are bytes to read, and the next address is not null.
pub deallocate-decode_list_0 :
    (s : State) (fuel : ℕ)
    → 0 < s.next_type
    → s.buffer.index < s.buffer.size
    → unchecked_getc_at s.buffer s.buffer.index ≡ 0x45
    → Returns (amqp_decode s) (λ p t.
      (p ≡ s.next_type)
      × ((type_is_invalid (t.types s.next_type) ≡ false)
          × (deallocate_type t.types (suc fuel) s.next_type
              ≡ some (
                  if (s.types s.next_type).has_elements
                  then array s.next_type ∷ object s.next_type ∷ []
                  else object s.next_type ∷ []))))
unfolding run_decoder list_0 fixed_zero_width set_position find_code type_is_invalid
deallocate-decode_list_0 s fuel pos h e =
    amqp_decode-started 0x45 meta_data_list_0 s
      (λ t.
        (type_is_invalid (t.types s.next_type) ≡ false)
        × (deallocate_type t.types (suc fuel) s.next_type
            ≡ some (
                if (s.types s.next_type).has_elements
                then array s.next_type ∷ object s.next_type ∷ []
                else object s.next_type ∷ [])))
      h e (type_meta_data_lookup_lem 0x45)
      (
        refl,
        (
          ground arith,
          deallocate_empty _ fuel s.next_type pos (ground arith) (ground arith)
              ∙ ap
                  (λ has. some (
                    if has
                    then array s.next_type ∷ object s.next_type ∷ []
                    else object s.next_type ∷ []))
                  (ground arith),
        ),
      )
