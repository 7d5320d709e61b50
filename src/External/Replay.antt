-- ===== src/External/Replay.antt =====
-- Messages of app/backend/src/services/externalJobs.js that are relayed once more.
use red_man.Common.{
  ℕ, ◌/◌, ◌≤◌, ◌≡◌, ◌≢◌, refl, sym, ap, ◌∙◌, ◌⊎◌, inl, inr, String, Bool, true, false, some, List,
  [], ◌∷◌, any, tally, tally-append, String-Comparable, ℕ-Comparable, arith, Bool-cases,
  Option-cases,
}
use Prim.Native.String.{◌++◌ as text_append}
use Prim.Native.String.append.{cons}
use text.Mathlib.TextEquality.{eq_iff}
use red_man.External.{Status, Job, Run, Db, Host, job_of}
use red_man.External.Heartbeats.{
  Payload, Recorded, recorded, has_ref, cut_ref, write_heartbeat, insert_heartbeat, Fields,
  signature_matches, Relayed, accepted, distance, new_run, relayed_payload, expected_signature,
  record_relayed_heartbeat,
}
use red_man.External.Changes.{Changes, is_kept, kept, Changes-kept}

kept-any :
    (ref : String) (s : ℕ) (rows : List Run)
    → 1 ≤ tally (is_kept ref s) rows
    → any (has_ref ref) rows ≡ true
kept-any ref s [] h = ground arith
kept-any ref s (r ∷ rows) h = ground (arith, kept-any ref s rows)

-- The reference that a message with this signature is kept under.
abbrev ref_of : Host → Fields → String
ref_of h f = h.cut 128 (text_append "relay:" (h.lower f.signature))

signature_matches_inv :
    (h : Host) (expected candidate : String)
    → signature_matches h expected candidate ≡ true
    → expected ≡ h.lower candidate
unfolding signature_matches
signature_matches_inv h expected candidate e =
    (eq_iff expected (h.lower candidate)).0 (ground arith)

-- An accepted message is signed and near in time.
accepted_inv :
    (h : Host) (now : ℕ) (f : Fields) (db : Db) (r : Recorded)
    → (record_relayed_heartbeat h now f db).1 ≡ accepted r
    → (job : Job) × (ts : ℕ) × (h.number f.ts ≡ some ts)
      × (distance (now / 1000) ts ≤ 900)
      × (expected_signature h job f ≡ h.lower f.signature)
      × (record_relayed_heartbeat h now f db ≡ (
        (insert_heartbeat h now job (relayed_payload h f (expected_signature h job f)) db).0,
        accepted
            (insert_heartbeat h now job (relayed_payload h f (expected_signature h job f)) db).1,
      ))
unfolding record_relayed_heartbeat
accepted_inv h now f db r e = elim (Option-cases (job_of db f.slug)) [
  | inl missing ↦ ground arith
  | inr (job, found) ↦ elim (Option-cases (h.number f.ts)) [
    | inl missing ↦ ground arith
    | inr (ts, read) ↦
        elim (Bool-cases (signature_matches h (expected_signature h job f) f.signature)) [
          | inl good ↦ (job, ts, read, ground arith, signature_matches_inv h _ _ good, ground arith)
          | inr bad ↦ ground arith
        ]
  ]
]

append_nonempty : (s t : String) → s ≢ "" → text_append s t ≢ ""
append_nonempty String.[] t h e = absurd (h refl)
append_nonempty (String.◌∷◌ c s) t h e = let step = cons c s t in cc

relay_ref :
    (h : Host) (s : String)
    → cut_ref h 128 (some (text_append "relay:" s)) ≡ some (h.cut 128 (text_append "relay:" s))
relay_ref h s =
    let full : text_append "relay:" s ≢ "" = append_nonempty "relay:" s (cc) in
    ground (arith, eq_iff (text_append "relay:" s) "")

-- What is recorded is kept under its reference.
recorded-kept :
    (h : Host) (now : ℕ) (job : Job) (p : Payload) (ref : String) (db : Db) (st : Status)
    → cut_ref h 128 p.source_ref ≡ some ref
    → (insert_heartbeat h now job p db).1 ≡ recorded st
    → 1 ≤ kept ref (now / 1000) (insert_heartbeat h now job p db).0
unfolding insert_heartbeat write_heartbeat
recorded-kept h now job p ref db st e done = ground (
  arith,
  tally-append (is_kept ref (now / 1000)) db.runs (new_run h now job p (some ref) db.next_run ∷ []),
  eq_iff ref ref,
)

duplicate-unchanged :
    (h : Host) (now : ℕ) (job : Job) (p : Payload) (ref : String) (db : Db)
    → cut_ref h 128 p.source_ref ≡ some ref
    → any (has_ref ref) db.runs ≡ true
    → (insert_heartbeat h now job p db).0 ≡ db
unfolding insert_heartbeat
duplicate-unchanged h now job p ref db e there = rw (e, insert_heartbeat) (rw there refl)

payload_ref :
    (h : Host) (f : Fields) (expected : String)
    → expected ≡ h.lower f.signature
    → cut_ref h 128 (relayed_payload h f expected).source_ref ≡ some (ref_of h f)
payload_ref h f expected e = rw e (relay_ref h (h.lower f.signature))

abbrev is_accepted : Relayed → Bool
is_accepted (accepted r) = true
is_accepted other = false

accepted-cases : (a : Relayed) → (is_accepted a ≡ false) ⊎ ((r : Recorded) × (a ≡ accepted r))
accepted-cases (accepted r) = inr (r, refl)
accepted-cases Relayed.unknown_job = inl refl
accepted-cases Relayed.bad_timestamp = inl refl
accepted-cases Relayed.stale = inl refl
accepted-cases Relayed.bad_signature = inl refl

-- Nothing is written where a message is not accepted.
refused-unchanged :
    (h : Host) (now : ℕ) (f : Fields) (db : Db)
    → is_accepted (record_relayed_heartbeat h now f db).1 ≡ false
    → (record_relayed_heartbeat h now f db).0 ≡ db
unfolding record_relayed_heartbeat
refused-unchanged h now f db refused = ground arith

-- A message that is kept under its reference since a time near its own is a duplicate.
kept-unchanged :
    (h : Host) (now start : ℕ) (f : Fields) (db : Db) (r : Recorded)
    → 1 ≤ kept (ref_of h f) (start / 1000) db
    → (record_relayed_heartbeat h now f db).1 ≡ accepted r
    → (record_relayed_heartbeat h now f db).0 ≡ db
kept-unchanged h now start f db r there e =
    let (job, ts', read, near, signed, result) = accepted_inv h now f db r e in
    rw result (
      duplicate-unchanged h now job (relayed_payload h f (expected_signature h job f)) (ref_of h f)
        db (payload_ref h f (expected_signature h job f) signed)
        (kept-any (ref_of h f) (start / 1000) db.runs there))

accepted-injective : (r r' : Recorded) → accepted r ≡ accepted r' → r ≡ r'
accepted-injective r r' e = cc

first-kept :
    (h : Host) (now : ℕ) (f : Fields) (db : Db) (st : Status)
    → (record_relayed_heartbeat h now f db).1 ≡ accepted (recorded st)
    → (ts : ℕ) × (h.number f.ts ≡ some ts)
      × (distance (now / 1000) ts ≤ 900)
      × (1 ≤ kept (ref_of h f) (now / 1000) (record_relayed_heartbeat h now f db).0)
first-kept h now f db st e =
    let (job, ts, read, near, signed, result) = accepted_inv h now f db (recorded st) e in
    (
      ts,
      read,
      near,
      rw result (
          recorded-kept h now job (relayed_payload h f (expected_signature h job f)) (ref_of h f) db
            st (payload_ref h f (expected_signature h job f) signed)
            (accepted-injective _ _ (sym (ap (λ (p : Db × Relayed). p.1) result) ∙ e))),
    )

-- A relayed message that has been recorded is not recorded a second time: at whatever later time it
-- is sent again, whatever reports, deletions of old runs and changes of jobs have come between, the
-- tables stay as they are. Jobs are not deleted meanwhile.
pub record_relayed_heartbeat_once :
    (h : Host) (start last now : ℕ) (f : Fields) (db later : Db) (st : Status)
    → (record_relayed_heartbeat h start f db).1 ≡ accepted (recorded st)
    → Changes h start (record_relayed_heartbeat h start f db).0 last later
    → last ≤ now
    → (record_relayed_heartbeat h now f later).0 ≡ later
record_relayed_heartbeat_once h start last now f db later st first changes after =
    elim (accepted-cases (record_relayed_heartbeat h now f later).1) [
      | inl refused ↦ refused-unchanged h now f later refused
      | inr (r, e) ↦
          let (ts, read, near, there) = first-kept h start f db st first in
          let (job, ts', read', near', signed, result) = accepted_inv h now f later r e in
          let same : ts ≡ ts' = cc in
          kept-unchanged h now start f later r
            (omega (
              arith,
              there,
              Changes-kept h (ref_of h f) (start / 1000) start
                  (record_relayed_heartbeat h start f db).0 last later
                  (omega (arith, near, near', same)) changes,
            ))
            e
    ]
