-- ===== src/Codec/MetaData/Lookup.antt =====
-- `amqp_type_meta_data_lookup` of Codec/Type/EncodingMetaData.c: a binary search by format code.
use libamqp.Prelude.{
  ℕ, zero, suc, ◌+◌, ◌-◌, ◌/◌, List, Option, none, some, ltb, ◌==◌, if◌then◌else◌, length,
  get_elem?,
}
use libamqp.Codec.MetaData.{MetaData}
use libamqp.Codec.MetaData.Table.{type_lookup_table}

-- The outer `none` is a read outside the table, or a loop that has used up its rounds; the inner one
-- is the null pointer. `s` and `e` are at most 52, so the `int` arithmetic does not overflow.
unfoldable pub lookup_loop : List MetaData → ℕ → ℕ → ℕ → ℕ → Option (Option MetaData)
lookup_loop table zero format_code s e = none
lookup_loop table (suc rounds) format_code s e =
    let m = s + (e - s) / 2 in
    let lower = lookup_loop table rounds format_code s m in
    let upper = lookup_loop table rounds format_code (m + 1) e in
    if ltb s e
    then (elim (get_elem? table m) [
      | none ↦ none
      | some candidate ↦
          if candidate.format_code == format_code
          then some (some candidate)
          else if ltb format_code candidate.format_code
          then lower
          else upper
    ])
    else some none

-- Each round shortens the range, so one round more than its length is enough.
unfoldable pub lookup_in : List MetaData → ℕ → Option (Option MetaData)
unfolding lookup_loop
lookup_in table format_code = lookup_loop table (suc (length table)) format_code 0 (length table)

unfoldable pub type_meta_data_lookup : ℕ → Option (Option MetaData)
unfolding lookup_in
type_meta_data_lookup format_code = lookup_in type_lookup_table format_code
