-- ===== src/Codec/Encode/Containers.antt =====
-- The chain of open containers of Codec/Encode/Encode.c, and the elements that are added to them.
use libamqp.Prelude.{
  ℕ, ◌+◌, ◌%◌, ◌^◌, ◌<◌, ◌≡◌, ◌≢◌, refl, Bool, true, false, ◌||◌, ltb, ◌==◌, if◌then◌else◌, arith,
  sym, ◌∙◌, ap, update, ◌⊎◌,
}
use mathlib.Core.Path.{subst}
use libamqp.Codec.Flags.{
  has_flag, set_flag, is_incomplete, is_contained, is_descriptor, is_described,
}
use libamqp.Codec.State.{
  AmqpType, State, fault, ◌>>◌, set_type, write_type, abort, type_is_composite,
}
use libamqp.Codec.State.Hoare.{Returns, Returns-if, Returns-bind}
use libamqp.Codec.Decode.Compound.{with_count}
use libamqp.Codec.Encode.{
  push_container, pop_container, add_element_to_container, set_role, append_element, with_element,
}

-- A container that is pushed and popped: it is the one returned, it is flagged as complete again, the
-- container around it is the open one again, and no other object has changed.
-- The container is not null and was not flagged as incomplete.
pub pop_container-push_container :
    (p o : ℕ) (s : State)
    → p ≢ 0
    → o ≢ p
    → has_flag (s.types p).typedef_flags is_incomplete ≡ false
    → Returns ((push_container p >> pop_container) s) (λ q t.
      (q ≡ p)
      × (t.container ≡ s.container)
      × ((t.types p).typedef_flags ≡ (s.types p).typedef_flags)
      × (t.types o ≡ s.types o)
      × (t.buffer ≡ s.buffer))
unfolding push_container pop_container
pop_container-push_container p o s n d f =
    Returns-if (p == 0) _ _ _ _ (λ q. absurd (ground arith))
      (λ q. (refl, ground arith, ground arith, ground arith, refl))

-- The flags that an element has for its place.
abbrev pub role_flags : Bool → ℕ → ℕ → ℕ
role_flags composite count flags =
    let contained = set_flag flags is_contained in
    if composite
    then (if count == 0 then set_flag contained is_descriptor else set_flag contained is_described)
    else contained

-- The element `p` is the last one of the container, whose others are as they were.
abbrev pub Added : ℕ → ℕ → ℕ → State → State → Type 0
Added container p o s t =
    let count = (s.types container).word in
    ((t.types container).word ≡ count + 1)
    × ((t.types container).has_elements ≡ true)
    × ((t.types container).elements count ≡ p)
    × ((t.types container).elements o
        ≡ (if (s.types container).has_elements then (s.types container).elements o else 0))
    × ((t.types p).typedef_flags
        ≡ role_flags (type_is_composite (s.types container)) count (s.types p).typedef_flags)
    × (t.buffer ≡ s.buffer)
    × (t.container ≡ s.container)
    × ((t.types container).typedef_flags ≡ (s.types container).typedef_flags)
    × ((t.types container).array_constructor ≡ (s.types container).array_constructor)

abbrev with_contained : AmqpType → AmqpType
with_contained t = record t { typedef_flags = set_flag t.typedef_flags is_contained }

role : Bool → ℕ → ℕ → ℕ
role composite count flags =
    if composite
    then (if count == 0 then set_flag flags is_descriptor else set_flag flags is_described)
    else flags

-- What the `switch` does to the element, and that it leaves the container.
abbrev RoleSet : Bool → ℕ → ℕ → ℕ → State → State → Type 0
RoleSet composite count p q s t =
    ((t.types p).typedef_flags ≡ role composite count (s.types p).typedef_flags)
    × (t.types q ≡ s.types q)
    × (t.buffer ≡ s.buffer)
    × (t.container ≡ s.container)

set_role-RoleSet :
    (composite : Bool) (count p q : ℕ) (s : State)
    → q ≢ p
    → (composite ≡ false) ⊎ (count < 2)
    → Returns (set_role composite count p s) (λ _ t. RoleSet composite count p q s t)
unfolding role
set_role-RoleSet false count p q s d h = (refl, refl, refl, refl)
set_role-RoleSet true count p q s d h =
    Returns-if (count == 0) _ _ s (λ _ t. RoleSet true count p q s t)
      (λ e. (ground arith, ground arith, refl, refl))
      (λ e.
        Returns-if (count == 1) _ _ s (λ _ t. RoleSet true count p q s t)
          (λ _. (ground arith, ground arith, refl, refl)) (λ g. absurd (ground arith)))

-- The state in front of the `switch`.
abbrev counted : ℕ → ℕ → State → State
counted container p s =
    let x = s.types container in
    let t = write_type s container (with_count ((x.word + 1) % 2 ^ 64) x) in
    write_type t p (with_contained (t.types p))

counted_container :
    (container p : ℕ) (s : State)
    → container ≢ p
    → (counted container p s).types container
      ≡ with_count (((s.types container).word + 1) % 2 ^ 64) (s.types container)
counted_container container p s d = ground arith

counted_element :
    (container p : ℕ) (s : State)
    → container ≢ p
    → (counted container p s).types p ≡ with_contained (s.types p)
counted_element container p s d = ground arith

update_same : (f : ℕ → AmqpType) (p : ℕ) (x : AmqpType) → update f p x p ≡ x
update_same f p x = ground arith

update_other : (f : ℕ → AmqpType) (p q : ℕ) (x : AmqpType) → p ≢ q → update f p x q ≡ f q
update_other f p q x n = ground arith

-- The store of the pointer, behind the `switch`.
stored_element :
    (container p o : ℕ) (s u : State)
    → container ≢ p
    → o ≢ (s.types container).word
    → (s.types container).word + 1 < 2 ^ 64
    → RoleSet
        (type_is_composite (s.types container))
        (s.types container).word
        p
        container
        (counted container p s)
        u
    → Added container p o s
        (write_type u container (with_element (s.types container).word p (u.types container)))
unfolding role
stored_element container p o s u d n small r =
    let x : AmqpType = s.types container in
    let y : AmqpType = with_count ((x.word + 1) % 2 ^ 64) x in
    let e : update u.types container (with_element x.word p (u.types container)) container
        ≡ with_element x.word p y =
      update_same u.types container (with_element x.word p (u.types container))
      ∙ ap (with_element x.word p) (r.1 ∙ counted_container container p s d) in
    let other = update_other u.types container p (with_element x.word p (u.types container)) d in
    (
      ap (λ z. z.word) e ∙ omega arith,
      ap (λ z. z.has_elements) e,
      ap (λ z. z.elements x.word) e ∙ ground arith,
      ap (λ z. z.elements o) e ∙ ground arith,
      ap (λ z. z.typedef_flags) other
          ∙ r.0
          ∙ ap (λ z. role (type_is_composite x) x.word z.typedef_flags)
              (counted_element container p s d),
      r.2,
      r.3,
      ap (λ z. z.typedef_flags) e,
      ap (λ z. z.array_constructor) e,
    )

-- An element that is added to another open object, one with room in its count, with an array of
-- pointers or a count below sixteen, and no described type with two elements already: the call
-- returns, the count goes up by one, the element is in the last place, the other places stay, it
-- has the flags of its place, and the object around it keeps its flags and its constructor.
pub add_element_to_container_lem :
    (container p o : ℕ) (s : State)
    → container ≢ p
    → o ≢ (s.types container).word
    → (s.types container).word + 1 < 2 ^ 64
    → ((s.types container).has_elements ≡ true) ⊎ ((s.types container).word < 16)
    → (type_is_composite (s.types container) ≡ false) ⊎ ((s.types container).word < 2)
    → Returns (add_element_to_container container p s) (λ _ t. Added container p o s t)
unfolding add_element_to_container
add_element_to_container_lem container p o s d n small room c =
    let x : AmqpType = s.types container in
    let t2 : State = counted container p s in
    let same : type_is_composite (t2.types container) ≡ type_is_composite x =
      ap type_is_composite (counted_container container p s d) in
    subst
      (λ b.
        Returns ((set_role b x.word p >> append_element container x.word p) t2)
          (λ _ t. Added container p o s t))
      (sym same)
      (Returns-bind (set_role (type_is_composite x) x.word p)
        (λ _. append_element container x.word p) t2
        (λ _ u. RoleSet (type_is_composite x) x.word p container t2 u)
        (λ _ t. Added container p o s t)
        (set_role-RoleSet (type_is_composite x) x.word p container t2 d c)
        (λ _ u r.
          Returns-if ((u.types container).has_elements || ltb x.word 16)
            (set_type container (with_element x.word p)) (abort fault) u
            (λ _ t. Added container p o s t) (λ _. stored_element container p o s u d n small r)
            (λ q.
              let kept : (u.types container).has_elements ≡ x.has_elements =
                ap (λ z. z.has_elements) (r.1 ∙ counted_container container p s d) in
              absurd (ground (arith, q, kept, room)))))
