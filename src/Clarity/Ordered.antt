-- ===== src/Clarity/Ordered.antt =====
-- The bytes of a tuple do not depend on the order in which its members are given.
use mailslot.Base.{
  ℕ, String, Bool, true, false, List, [], ◌∷◌, ◌≡◌, refl, sym, ap, ◌∙◌, inl, inr, Bool-cases, ok,
  >>=-eq-ok, ok_inj,
}
use mailslot.Clarity.Values.{
  ClarityValue, tuple, Members, member, Codec, insert_member, serialize_clarity_value,
  serialize_members,
}

-- `before` is transitive, as the order of texts is.
pub record IsOrder (before : String → String → Bool) : Type 0 where
  pub trans : (a b c : String) → before a b ≡ true → before b c ≡ true → before a c ≡ true

-- The same members with two neighbours exchanged, anywhere, any number of times; the names of the
-- two differ, the first being before the other by the order.
pub data Reorders (before : String → String → Bool) : Members → Members → Type 0 where
  same : {ms : Members} → Reorders before ms ms
  swap :
      {a b : String} {v w : ClarityValue} {rest : Members}
      → before a b ≡ true
      → before b a ≡ false
      → Reorders before (member a v (member b w rest)) (member b w (member a v rest))
  back :
      {a b : String} {v w : ClarityValue} {rest : Members}
      → before a b ≡ true
      → before b a ≡ false
      → Reorders before (member b w (member a v rest)) (member a v (member b w rest))
  under :
      {a : String} {v : ClarityValue} {ms ms' : Members}
      → Reorders before ms ms'
      → Reorders before (member a v ms) (member a v ms')
  join :
      {first second third : Members}
      → Reorders before first second
      → Reorders before second third
      → Reorders before first third

module _ (k : Codec) (order : IsOrder k.before) where
  insert_member-swap :
      (a b : String) (x y : List ℕ) (ms : List (String × List ℕ))
      → k.before a b ≡ true
      → k.before b a ≡ false
      → insert_member k a x (insert_member k b y ms) ≡ insert_member k b y (insert_member k a x ms)
  unfolding insert_member
  insert_member-swap a b x y [] h g = rw (h, g) refl
  insert_member-swap a b x y ((c, z) ∷ ms) h g = elim (Bool-cases (k.before c a)) [
    | inl early ↦
        let later = order.trans c a b early h in
        rw (early, later, early) (ap (λ r. (c, z) ∷ r) (insert_member-swap a b x y ms h g))
    | inr late ↦ elim (Bool-cases (k.before c b)) [
      | inl between ↦ rw (between, late, h, between) refl
      | inr after ↦ rw (after, late, g, h, after) refl
    ]
  ]

  -- Two members and the rest, each serialized.
  record Pair (v w : ClarityValue) (rest : Members) : Type 0 where
    first : List ℕ
    second : List ℕ
    sorted : List (String × List ℕ)
    first_bytes : serialize_clarity_value k v ≡ ok first
    second_bytes : serialize_clarity_value k w ≡ ok second
    others : serialize_members k rest ≡ ok sorted

  read_members :
      (a b : String) (v w : ClarityValue) (rest : Members) {sorted : List (String × List ℕ)}
      → serialize_members k (member a v (member b w rest)) ≡ ok sorted
      → (p : Pair v w rest) × (insert_member k a p.first (insert_member k b p.second p.sorted)
          ≡ sorted)
  unfolding serialize_members
  read_members a b v w rest h =
      let (x, e1, h1) = >>=-eq-ok (serialize_clarity_value k v) _ h in
      let (inner, e2, h2) = >>=-eq-ok (serialize_members k (member b w rest)) _ h1 in
      let (y, e3, h3) = >>=-eq-ok (serialize_clarity_value k w) _ e2 in
      let (sorted, e4, h4) = >>=-eq-ok (serialize_members k rest) _ h3 in
      (
        record {
          first = x;
          second = y;
          sorted = sorted;
          first_bytes = e1;
          second_bytes = e3;
          others = e4;
        },
        ap (insert_member k a x) (ok_inj h4) ∙ ok_inj h2,
      )

  swapped_members :
      (a b : String) (v w : ClarityValue) (rest : Members) (p : Pair v w rest)
      → serialize_members k (member b w (member a v rest))
        ≡ ok (insert_member k b p.second (insert_member k a p.first p.sorted))
  unfolding serialize_members
  swapped_members a b v w rest p = rw (p.first_bytes, p.second_bytes, p.others) refl

  -- Members in another order serialize to the same sorted members.
  serialize_members-Reorders :
      {ms ms' : Members} (r : Reorders k.before ms ms') {sorted : List (String × List ℕ)}
      → serialize_members k ms ≡ ok sorted
      → serialize_members k ms' ≡ ok sorted
  unfolding serialize_members
  serialize_members-Reorders same h = h
  serialize_members-Reorders (swap {a} {b} {v} {w} {rest} h g) e =
      let (p, made) = read_members a b v w rest e in
      swapped_members a b v w rest p
      ∙ ap ok (sym (insert_member-swap a b p.first p.second p.sorted h g) ∙ made)
  serialize_members-Reorders (back {a} {b} {v} {w} {rest} h g) e =
      let (p, made) = read_members b a w v rest e in
      swapped_members b a w v rest p
      ∙ ap ok (insert_member-swap a b p.second p.first p.sorted h g ∙ made)
  serialize_members-Reorders (under {a} {v} {ms} {ms'} r) h =
      let (x, e1, h1) = >>=-eq-ok (serialize_clarity_value k v) _ h in
      let (inner, e2, h2) = >>=-eq-ok (serialize_members k ms) _ h1 in
      rw (e1, serialize_members-Reorders r e2) h2
  serialize_members-Reorders (join r s) h =
      serialize_members-Reorders s (serialize_members-Reorders r h)

  -- A tuple has the same bytes, and so the message the same hash, in whatever order its members are
  -- given, by an order of the names that is transitive.
  pub serialize_clarity_value-Reorders :
      (ms ms' : Members) (bytes : List ℕ)
      → Reorders k.before ms ms'
      → serialize_clarity_value k (tuple ms) ≡ ok bytes
      → serialize_clarity_value k (tuple ms') ≡ ok bytes
  unfolding serialize_clarity_value
  serialize_clarity_value-Reorders ms ms' bytes r h =
      let (sorted, e1, h1) = >>=-eq-ok (serialize_members k ms) _ h in
      rw (serialize_members-Reorders r e1) h1
