-- ===== src/External/Relay/RoundTrip.antt =====
-- A line of app/backend/src/services/ntfyRelay.js, written and parsed.
use red_man.Common.{
  ℕ, ◌≡◌, ◌≢◌, refl, sym, ap, ◌∙◌, inl, inr, Bool-cases, String, Bool, true, false, ◌||◌, Option,
  none, some, List, [], ◌∷◌, ◌++◌, nat_beq, String-Comparable, arith,
}
use text.Mathlib.TextEquality.{eq_iff, Char-path}
use Prim.Native.Char.{Char, code}
use Prim.Native.String.{◌++◌ as text_append}
use Prim.Native.String.append.{cons, nil}
use red_man.Common.Text.{codes, starts_with}
use red_man.External.{Host}
use red_man.External.Heartbeats.{Fields, join}
use red_man.External.Relay.{
  relay_prefix, with_char, split, optional, number_text, parse_parts, parse_relay_message,
}

abbrev pub has_space : String → Bool
has_space String.[] = false
has_space (String.◌∷◌ c s) = nat_beq (code c) 32 || has_space s

append_nil : (t : String) → text_append "" t ≡ t
append_nil t = nil t

append_cons :
    (c : Char) (s t : String) → text_append (String.◌∷◌ c s) t ≡ String.◌∷◌ c (text_append s t)
append_cons c s t = cons c s t

append_space : (s : String) → split (text_append " " s) ≡ "" ∷ split s
unfolding split
append_space s = rw (append_cons _ "" s) (rw (append_nil s) refl)

split_char :
    (c : Char) (w t : String) (ws : List String)
    → split t ≡ w ∷ ws
    → nat_beq (code c) 32 ≡ false
    → split (String.◌∷◌ c t) ≡ String.◌∷◌ c w ∷ ws
unfolding split
split_char c w t ws e other = rw other (rw e refl)

split_word :
    (w s : String) → has_space w ≡ false → split (text_append w (text_append " " s)) ≡ w ∷ split s
split_word String.[] s h = rw (append_nil (text_append " " s)) (append_space s)
split_word (String.◌∷◌ c w) s h = rw (append_cons c w (text_append " " s)) (
    split_char c w (text_append w (text_append " " s)) (split s) (split_word w s (ground arith))
      (ground arith))

split_cons : (s : String) → (w : String) × (ws : List String) × (split s ≡ w ∷ ws)
unfolding split
split_cons String.[] = ("", [], refl)
split_cons (String.◌∷◌ c s) = elim (Bool-cases (nat_beq (code c) 32)) [
  | inl space ↦ ("", split s, rw space refl)
  | inr other ↦ let (w, ws, e) = split_cons s in (String.◌∷◌ c w, ws, rw other (rw e refl))
]

space_char :
    (c d : Char) (s : String) → code c ≡ code d → text_append (String.◌∷◌ d "") s ≡ String.◌∷◌ c s
space_char c d s e =
    append_cons d "" s
    ∙ rw (append_nil s) (ap (λ (x : Char). String.◌∷◌ x s) (sym (Char-path c d e)))

join-with_char :
    (c : Char) (w : String) (ws : List String)
    → join " " (with_char c (w ∷ ws)) ≡ String.◌∷◌ c (join " " (w ∷ ws))
join-with_char c w [] = refl
join-with_char c w (v ∷ ws) = append_cons c w (text_append " " (join " " (v ∷ ws)))

-- The words of a text, put together again.
join-split : (s : String) → join " " (split s) ≡ s
unfolding split
join-split String.[] = refl
join-split (String.◌∷◌ c s) =
    let (w, ws, e) = split_cons s in
    let again : join " " (w ∷ ws) ≡ s = rw e at (join-split s) in
    elim (Bool-cases (nat_beq (code c) 32)) [
      | inl space ↦
          rw space
            (rw e (rw again (append_nil (text_append " " s) ∙ space_char c _ s (ground arith))))
      | inr other ↦ rw other (rw e (join-with_char c w ws ∙ ap (String.◌∷◌ c) again))
    ]

codes-append : (s t : String) → codes (text_append s t) ≡ codes s ++ codes t
codes-append String.[] t = rw (append_nil t) refl
codes-append (String.◌∷◌ c s) t = rw (append_cons c s t) (rw (codes-append s t) refl)

starts_with-append : (p s : List ℕ) → starts_with (p ++ s) p ≡ true
starts_with-append [] [] = refl
starts_with-append [] (c ∷ s) = refl
starts_with-append (c ∷ p) s = ground (arith, starts_with-append p s)

-- What a host reports, and the line that it sends: one space between the fields, a dash for what is
-- absent, and the message up to the end.
pub record Report : Type 0 where
  pub slug : String
  pub ts : ℕ
  pub exit_code : Option ℕ
  pub duration : Option ℕ
  pub signature : String
  pub message : String

abbrev pub field_text : Host → Option ℕ → String
field_text h none = "-"
field_text h (some n) = h.print n

abbrev pub words_of : Host → Report → List String
words_of h r =
    relay_prefix
    ∷ r.slug
    ∷ h.print r.ts
    ∷ field_text h r.exit_code
    ∷ field_text h r.duration
    ∷ r.signature
    ∷ r.message
    ∷ []

abbrev pub line_of : Host → Report → String
line_of h r = join " " (words_of h r)

-- A number that is printed is read again, is not empty, not a dash, and has no space.
pub record PrintsNumbers (h : Host) : Type 0 where
  pub reads : (n : ℕ) → h.number (h.print n) ≡ some n
  pub is_word : (n : ℕ) → has_space (h.print n) ≡ false
  pub not_empty : (n : ℕ) → h.print n ≢ ""
  pub not_dash : (n : ℕ) → h.print n ≢ "-"

abbrev pub printed : Host → Option ℕ → Option String
printed h none = none
printed h (some n) = some (h.print n)

abbrev pub fields_of : Host → Report → Fields
fields_of h r = record {
  slug = r.slug;
  ts = h.print r.ts;
  exit_code = printed h r.exit_code;
  duration = printed h r.duration;
  message = some r.message;
  signature = r.signature;
}

starts_with-prefix :
    (s : String)
    → starts_with (codes (text_append relay_prefix (text_append " " s))) (codes "redman-hb1 ")
      ≡ true
starts_with-prefix s =
    rw (codes-append relay_prefix (text_append " " s))
      (rw (codes-append " " s) (starts_with-append (codes "redman-hb1 ") (codes s)))

module _ (h : Host) (numbers : PrintsNumbers h) where
  field_text-has_space : (o : Option ℕ) → has_space (field_text h o) ≡ false
  field_text-has_space none = refl
  field_text-has_space (some n) = numbers.is_word n

  optional-field_text : (o : Option ℕ) → optional h (field_text h o) ≡ some (printed h o)
  optional-field_text none = refl
  optional-field_text (some n) = ground (
    arith,
    numbers.reads n,
    numbers.not_empty n,
    numbers.not_dash n,
    eq_iff (h.print n) "-",
    eq_iff (h.print n) "",
  )

  split-line_of :
      (r : Report)
      → has_space r.slug ≡ false
      → has_space r.signature ≡ false
      → split (line_of h r)
        ≡ relay_prefix
          ∷ r.slug
          ∷ h.print r.ts
          ∷ field_text h r.exit_code
          ∷ field_text h r.duration
          ∷ r.signature
          ∷ split r.message
  split-line_of r a b =
      split_word relay_prefix _ refl
      ∙ ap (λ (ws : List String). relay_prefix ∷ ws)
          (split_word r.slug _ a
            ∙ ap (λ (ws : List String). r.slug ∷ ws)
                (split_word (h.print r.ts) _ (numbers.is_word r.ts)
                  ∙ ap (λ (ws : List String). h.print r.ts ∷ ws)
                      (split_word (field_text h r.exit_code) _ (field_text-has_space r.exit_code)
                        ∙ ap (λ (ws : List String). field_text h r.exit_code ∷ ws)
                            (split_word (field_text h r.duration) _
                                (field_text-has_space r.duration)
                              ∙ ap (λ (ws : List String). field_text h r.duration ∷ ws)
                                  (split_word r.signature _ b)))))

  parse_parts-words :
      (r : Report)
      → parse_parts h (
          relay_prefix
          ∷ r.slug
          ∷ h.print r.ts
          ∷ field_text h r.exit_code
          ∷ field_text h r.duration
          ∷ r.signature
          ∷ split r.message)
        ≡ some (fields_of h r)
  unfolding parse_parts
  parse_parts-words r =
      rw (optional-field_text r.exit_code, parse_parts)
        (rw (optional-field_text r.duration)
          (rw (join-split r.message) (rw (numbers.reads r.ts, number_text) refl)))

  -- A line that a host sends is parsed to what it reports, whatever the message is, if trimming
  -- leaves the line as it is, and the slug and the signature have no spaces; printed numbers are
  -- words that are read again.
  pub parse_relay_message-line_of :
      (r : Report)
      → has_space r.slug ≡ false
      → has_space r.signature ≡ false
      → h.trim (line_of h r) ≡ line_of h r
      → parse_relay_message h (line_of h r) ≡ some (fields_of h r)
  unfolding parse_relay_message
  parse_relay_message-line_of r a b whole =
      rw (whole, parse_relay_message)
        (rw (starts_with-prefix _) (rw (split-line_of r a b) (parse_parts-words r)))
