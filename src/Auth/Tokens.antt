-- ===== src/Auth/Tokens.antt =====
-- Session tokens: what one is issued with is what is read back, and nothing is read without the HMAC.
use Prim.Native.Char.{code}
use Prim.Native.String
use Prim.Native.String.append
use mailslot.Base.{
  ℕ, ◌+◌, String, Bool, true, false, List, [], ◌∷◌, none, some, ◌≡◌, refl, sym, ap, ◌∙◌, ◌==◌, ◌||◌,
  ◌&&◌, not, eqb, eq_iff, if◌then◌else◌, arith, inl, inr, Bool-cases, ok, err, service, Option,
  >>=-eq-ok, reject_if-eq-ok, or_reject-eq-ok, ok_inj, or_reject, reject_if, ◌>>◌,
}
use mailslot.Base.Int.{ℤ, pos, ltb_ℤ}
use mailslot.Base.Text.{to_text, first_part, second_part}
use mailslot.Json.{Json, Value, null, bool, num, str, arr, obj, property}
use mailslot.Reservoir.Verify.{true_of_not}
use mailslot.Auth.Outside.{AuthConfig, Node, has_dot, text_of}
use mailslot.Auth.Sessions.{
  InboxSessionPayload, get_session_secret, session_payload, issue_inbox_session_token, equal_bytes,
  number_of, is_expired, verify_inbox_session_token,
}

-- What the codecs and `JSON` promise of a session's payload and of its HMAC under a key: decoding
-- undoes encoding, base64url has no dot and is empty only for the empty text, and a number is read
-- as it was printed.
pub record IsCodec (n : Node) (key : List ℕ) (address : String) (exp : ℕ) : Type 0 where
  pub json :
      n.parse (n.stringify (session_payload address exp)) ≡ some (session_payload address exp)
  pub number : n.to_number (num (to_text (pos exp))) ≡ some (pos exp)
  pub text :
      n.decode_text (n.encode_text (n.stringify (session_payload address exp)))
      ≡ n.stringify (session_payload address exp)
  pub bytes :
      n.decode_bytes
        (n.encode_bytes (n.hmac key (n.encode_text (n.stringify (session_payload address exp)))))
      ≡ n.hmac key (n.encode_text (n.stringify (session_payload address exp)))
  pub undotted_text : has_dot (n.encode_text (n.stringify (session_payload address exp))) ≡ false
  pub undotted_bytes :
      has_dot
        (n.encode_bytes (n.hmac key (n.encode_text (n.stringify (session_payload address exp)))))
      ≡ false
  pub some_text : (n.encode_text (n.stringify (session_payload address exp)) == "") ≡ false
  pub some_bytes :
      (n.encode_bytes (n.hmac key (n.encode_text (n.stringify (session_payload address exp))))
        == "")
      ≡ false

both_true : (a b : Bool) → a && b ≡ true → (a ≡ true) × (b ≡ true)
both_true true b h = (refl, h)
both_true false b h = cc

same_number : (x y : ℕ) → eqb x y ≡ true → x ≡ y
same_number x y h = ground arith

either_false : (a b : Bool) → a || b ≡ false → (a ≡ false) × (b ≡ false)
either_false true b h = cc
either_false false b h = (refl, h)

-- Up to the first dot.
equal_texts : (a b : String) → (a == b) ≡ true → a ≡ b
equal_texts a b h = ground (arith, eq_iff a b)

first_part-undotted :
    (a b : String) → has_dot a ≡ false → first_part (String.◌++◌ a (String.◌++◌ "." b)) ≡ a
unfolding has_dot first_part
first_part-undotted String.[] b h =
    rw (append.nil (String.◌++◌ "." b), append.cons "." "" b, first_part) refl
first_part-undotted (String.◌∷◌ c s) b h =
    let (other, rest) = either_false (eqb (code c) b'.') (has_dot s) h in
    rw (append.cons c s (String.◌++◌ "." b), first_part, other)
      (ap (String.◌∷◌ c) (first_part-undotted s b rest))

first_part-whole : (a : String) → has_dot a ≡ false → first_part a ≡ a
unfolding has_dot first_part
first_part-whole String.[] h = refl
first_part-whole (String.◌∷◌ c s) h =
    let (other, rest) = either_false (eqb (code c) b'.') (has_dot s) h in
    rw other (ap (String.◌∷◌ c) (first_part-whole s rest))

-- After the first dot, up to the next.
second_part-undotted :
    (a b : String)
    → has_dot a ≡ false
    → second_part (String.◌++◌ a (String.◌++◌ "." b)) ≡ first_part b
unfolding has_dot second_part
second_part-undotted String.[] b h =
    rw (append.nil (String.◌++◌ "." b), append.cons "." "" b, append.nil b, second_part) refl
second_part-undotted (String.◌∷◌ c s) b h =
    let (other, rest) = either_false (eqb (code c) b'.') (has_dot s) h in
    rw (append.cons c s (String.◌++◌ "." b), second_part, other) (second_part-undotted s b rest)

equal_bytes_refl : (b : List ℕ) → equal_bytes b b ≡ true
unfolding equal_bytes
equal_bytes_refl [] = refl
equal_bytes_refl (x ∷ b) = ground (arith, equal_bytes_refl b)

equal_bytes_lem : (a b : List ℕ) → equal_bytes a b ≡ true → a ≡ b
unfolding equal_bytes
equal_bytes_lem [] [] h = refl
equal_bytes_lem [] (y ∷ b) h = cc
equal_bytes_lem (x ∷ a) [] h = cc
equal_bytes_lem (x ∷ a) (y ∷ b) h =
    let (same, rest) = both_true (eqb x y) (equal_bytes a b) h in
    ap (λ z. z ∷ a) (same_number x y same) ∙ ap (λ z. y ∷ z) (equal_bytes_lem a b rest)

settle_if :
    {A : Type 0} (late : Bool) (status : ℕ) (reason : String) (session : A)
    → (reject_if late status reason >> ok session)
      ≡ (if late then err (service status reason) else ok session)
settle_if true status reason session = refl
settle_if false status reason session = refl

-- A token verifies as the session it was issued for until it expires, and as expired afterwards.
pub verify_inbox_session_token-issue_inbox_session_token :
    (n : Node) (c : AuthConfig) (now later : ℕ) (address : String)
    → IsCodec n (get_session_secret n c) address (now + c.inbox_session_ttl_ms)
    → (address == "") ≡ false
    → verify_inbox_session_token n c later (issue_inbox_session_token n c now address).token ≡ (
        if ltb_ℤ (pos (now + c.inbox_session_ttl_ms)) (pos later)
        then err (service 401 "session-expired")
        else ok (record { address = address; exp = some (pos (now + c.inbox_session_ttl_ms)) }))
unfolding verify_inbox_session_token issue_inbox_session_token number_of is_expired text_of property
verify_inbox_session_token-issue_inbox_session_token n c now later address codec named =
    let exp = now + c.inbox_session_ttl_ms in
    let text = n.stringify (session_payload address exp) in
    let encoded = n.encode_text text in
    let sig = n.encode_bytes (n.hmac (get_session_secret n c) encoded) in
    rw
      (
        first_part-undotted encoded sig codec.undotted_text,
        second_part-undotted encoded sig codec.undotted_text,
        first_part-whole sig codec.undotted_bytes,
        codec.some_text,
        codec.some_bytes,
        codec.bytes,
        equal_bytes_refl (n.hmac (get_session_secret n c) encoded),
        codec.text,
        codec.json,
        named,
        codec.number,
      )
      (settle_if (ltb_ℤ (pos exp) (pos later)) _ _ _)

not_empty : {A : Type 0} (a : String) → a ≡ "" → (a == "") ≡ false → A
not_empty a e h = let blank = ap (λ x. x == "") e in cc

-- A token that is issued is not empty.
pub issue_inbox_session_token-some :
    (n : Node) (c : AuthConfig) (now : ℕ) (address : String)
    → IsCodec n (get_session_secret n c) address (now + c.inbox_session_ttl_ms)
    → ((issue_inbox_session_token n c now address).token == "") ≡ false
unfolding issue_inbox_session_token first_part
issue_inbox_session_token-some n c now address codec =
    let token = (issue_inbox_session_token n c now address).token in
    let encoded =
      n.encode_text (n.stringify (session_payload address (now + c.inbox_session_ttl_ms))) in
    elim (Bool-cases (token == "")) [
      | inr kept ↦ kept
      | inl blank ↦
          let start =
            sym (first_part-undotted encoded _ codec.undotted_text)
            ∙ ap first_part (equal_texts token "" blank) in
          not_empty encoded start codec.some_text
    ]

-- A session that a token has been read as: the token's HMAC, its payload, and its time.
pub record IsSession (n : Node) (c : AuthConfig) (now : ℕ) (token : String)
    (session : InboxSessionPayload) : Type 0 where
  pub authentic :
      n.decode_bytes (second_part token) ≡ n.hmac (get_session_secret n c) (first_part token)
  pub payload : Json
  pub parsed : n.parse (n.decode_text (first_part token)) ≡ some payload
  pub named : property payload "address" ≡ ok (some (str session.address))
  pub address_kept : (session.address == "") ≡ false
  pub exp_text : String
  pub dated : property payload "exp" ≡ ok (some (num exp_text))
  pub until : session.exp ≡ n.to_number (num exp_text)
  pub current : is_expired now session.exp ≡ false

some_inj : {A : Type 0} {a b : A} → some a ≡ some b → a ≡ b
some_inj h = cc

pub none_some : {A B : Type 0} {a : A} → none ≡ some a → B
none_some h = cc

pub some_text_lem :
    (v : Value) (s : String) → text_of v ≡ some s → (v ≡ some (str s)) × ((s == "") ≡ false)
unfolding text_of
some_text_lem (some (str t)) s h = elim (Bool-cases (t == "")) [
  | inl blank ↦ none_some (rw blank at h)
  | inr kept ↦ let same = some_inj (rw kept at h) in (ap (λ x. some (str x)) same, rw (← same) kept)
]
some_text_lem none s h = cc
some_text_lem (some _) s h = cc

number_of_lem :
    (n : Node) (v : Value) {exp : Option ℤ}
    → number_of n v ≡ some exp
    → (t : String) × (v ≡ some (num t)) × (exp ≡ n.to_number (num t))
unfolding number_of
number_of_lem n none h = none_some h
number_of_lem n (some null) h = none_some h
number_of_lem n (some (bool b)) h = none_some h
number_of_lem n (some (num t)) h = (t, refl, some_inj (sym h))
number_of_lem n (some (str t)) h = none_some h
number_of_lem n (some (arr vs)) h = none_some h
number_of_lem n (some (obj fs)) h = none_some h

-- No token is taken but one whose second part is the HMAC, under the server's secret, of its first
-- part, which holds the session's address and, as `exp`, its time, which has not passed.
pub verify_inbox_session_token-IsSession :
    (n : Node) (c : AuthConfig) (now : ℕ) (token : String) (session : InboxSessionPayload)
    → verify_inbox_session_token n c now token ≡ ok session
    → IsSession n c now token session
unfolding verify_inbox_session_token
verify_inbox_session_token-IsSession n c now token session h =
    let encoded = first_part token in
    let sig = second_part token in
    let (_, h1) = reject_if-eq-ok (encoded == "" || sig == "") 401 "invalid-session" _ h in
    let (c2, h2) =
      reject_if-eq-ok
        (not (equal_bytes (n.decode_bytes sig) (n.hmac (get_session_secret n c) encoded))) 401
        "invalid-session" _ h1 in
    let (payload, e3, h3) =
      >>=-eq-ok (or_reject (n.parse (n.decode_text encoded)) 401 "invalid-session") _ h2 in
    let (address_value, e4, h4) = >>=-eq-ok (property payload "address") _ h3 in
    let (exp_value, e5, h5) = >>=-eq-ok (property payload "exp") _ h4 in
    let (address, e6, h6) =
      >>=-eq-ok (or_reject (text_of address_value) 401 "invalid-session") _ h5 in
    let (exp, e7, h7) = >>=-eq-ok (or_reject (number_of n exp_value) 401 "invalid-session") _ h6 in
    let (c8, h8) = reject_if-eq-ok (is_expired now exp) 401 "session-expired" _ h7 in
    let (as_str, kept) = some_text_lem address_value address (or_reject-eq-ok _ _ _ e6) in
    let (t, as_num, until) = number_of_lem n exp_value (or_reject-eq-ok _ _ _ e7) in
    rw (← ok_inj h8) (record {
      authentic = equal_bytes_lem _ _ (true_of_not _ c2);
      payload = payload;
      parsed = or_reject-eq-ok _ _ _ e3;
      named = e4 ∙ ap ok as_str;
      address_kept = kept;
      exp_text = t;
      dated = e5 ∙ ap ok as_num;
      until = until;
      current = c8;
    })
