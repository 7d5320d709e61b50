-- ===== src/External/Relay.antt =====
-- The line of app/backend/src/services/ntfyRelay.js by which a host reports through a broker.
pub mod RoundTrip
use red_man.Common.{
  ℕ, suc, ◌≡◌, ◌≢◌, refl, sym, ap, ◌∙◌, String, Bool, true, false, ◌&&◌, ◌||◌, not, Option, none,
  some, List, [], ◌∷◌, ◌++◌, nat_beq, leb, ltb, length, drop, ◌===◌, if◌then◌else◌,
  String-Comparable, arith,
}
use Prim.Native.Char.{Char, code}
use Prim.Native.String.{◌++◌ as text_append}
use red_man.Common.Text.{codes, starts_with}
use red_man.External.{Host, Db}
use red_man.External.Heartbeats.{Fields, join, Recorded, Relayed, record_relayed_heartbeat}

abbrev pub relay_prefix : String
relay_prefix = "redman-hb1"

-- The first word of a text, and a character put in front of it.
abbrev pub with_char : Char → List String → List String
with_char c [] = String.◌∷◌ c String.[] ∷ []
with_char c (w ∷ ws) = String.◌∷◌ c w ∷ ws

-- `line.split(' ')`
unfoldable pub split : String → List String
split String.[] = "" ∷ []
split (String.◌∷◌ c s) = if nat_beq (code c) 32 then "" ∷ split s else with_char c (split s)

-- `field === '-' || field === '' ? null : Number(field)`, as a text; nothing stands for a number that
-- is not finite.
abbrev pub optional : Host → String → Option (Option String)
optional h field =
    if field === "-" || field === ""
    then some none
    else (elim (h.number field) [ none ↦ none | some n ↦ some (some (h.print n)) ])

-- `String(Number(ts))`
abbrev pub number_text : Host → String → String
number_text h s = elim (h.number s) [ none ↦ "NaN" | some n ↦ h.print n ]

unfoldable pub parse_parts : Host → List String → Option Fields
parse_parts h (first ∷ slug ∷ ts ∷ exit_field ∷ duration_field ∷ signature ∷ rest) =
    elim (optional h exit_field) [
      | none ↦ none
      | some exit_code ↦ elim (optional h duration_field) [
        | none ↦ none
        | some duration ↦ some (record {
          slug = slug;
          ts = number_text h ts;
          exit_code = exit_code;
          duration = duration;
          message = some (join " " rest);
          signature = signature;
        })
      ]
    ]
parse_parts h other = none

unfoldable pub parse_relay_message : Host → String → Option Fields
unfolding parse_parts split
parse_relay_message h text =
    let line = h.trim text in
    if starts_with (codes line) (codes "redman-hb1 ") then parse_parts h (split line) else none

-- What a poll counts.
pub record Counts : Type 0 where
  pub seen : ℕ
  pub recorded : ℕ
  pub duplicate : ℕ
  pub rejected : List (String × Relayed)

abbrev pub count : String → Relayed → Counts → Counts
count slug (Relayed.accepted Recorded.duplicate) c = record c {
  seen = suc c.seen;
  duplicate = suc c.duplicate;
}
count slug (Relayed.accepted (Recorded.recorded s)) c = record c {
  seen = suc c.seen;
  recorded = suc c.recorded;
}
count slug reason c = record c { seen = suc c.seen; rejected = (slug, reason) ∷ c.rejected }

-- The loop of `pollRelayOnce` over the messages of a response; lines that hold none are left out.
unfoldable pub collect : Host → ℕ → List String → Db → Db × Counts
unfolding parse_relay_message
collect h now [] db = (db, record { seen = 0; recorded = 0; duplicate = 0; rejected = [] })
collect h now (message ∷ messages) db = elim (parse_relay_message h message) [
  | none ↦ collect h now messages db
  | some f ↦
      let (db', answer) = record_relayed_heartbeat h now f db in
      let (db'', c) = collect h now messages db' in (db'', count f.slug answer c)
]
