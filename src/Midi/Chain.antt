-- ===== src/Midi/Chain.antt =====
-- The delta times that `append_mevent` of server/midi.c keeps along a track, and `Mtrack_copy`.
use mks65_symphony.Prelude.{
  ℕ, ◌+◌, ◌≡◌, refl, sym, ap, some, List, [], ◌∷◌, ◌++◌, arith, length, length-append, ◌∙◌, ok,
}
use mathlib.Core.Path.{subst}
use mathlib.Core.List.{append_assoc, append-nil}
use mks65_symphony.Midi.{
  Mevent, Mtrack, last_of, sub_ulong, cstrdup, append_mevent, mevent_copy, copy_events, mtrack_copy,
}

-- Each event after `e` holds the time since the one before it.
abbrev pub DeltasFrom : Mevent → List Mevent → Type 0
DeltasFrom e [] = Unit
DeltasFrom e (f ∷ es) = (f.deltatime ≡ sub_ulong f.curtime e.curtime) × DeltasFrom f es

abbrev pub Deltas : List Mevent → Type 0
Deltas [] = Unit
Deltas (e ∷ es) = DeltasFrom e es

pub record IsChained (t : Mtrack) : Type 0 where
  pub counted : t.len ≡ length t.events
  pub deltas : Deltas t.events

abbrev pub last_from : Mevent → List Mevent → Mevent
last_from e [] = e
last_from e (f ∷ es) = last_from f es

last_of-cons : (e : Mevent) (es : List Mevent) → last_of (e ∷ es) ≡ some (last_from e es)
last_of-cons e [] = refl
last_of-cons e (f ∷ es) = last_of-cons f es

-- The event as it stands behind `es`.
abbrev pub chained : List Mevent → Mevent → Mevent
chained [] e = e
chained (f ∷ es) e = record e { deltatime = sub_ulong e.curtime (last_from f es).curtime }

DeltasFrom-snoc :
    (e : Mevent) (es : List Mevent) (x : Mevent)
    → DeltasFrom e es
    → x.deltatime ≡ sub_ulong x.curtime (last_from e es).curtime
    → DeltasFrom e (es ++ x ∷ [])
DeltasFrom-snoc e [] x d h = (h, tt)
DeltasFrom-snoc e (f ∷ es) x d h = (d.0, DeltasFrom-snoc f es x d.1 h)

DeltasFrom-mid :
    (e : Mevent) (es : List Mevent) (x : Mevent) (ys : List Mevent)
    → DeltasFrom e (es ++ x ∷ ys)
    → x.deltatime ≡ sub_ulong x.curtime (last_from e es).curtime
DeltasFrom-mid e [] x ys d = d.0
DeltasFrom-mid e (f ∷ es) x ys d = DeltasFrom-mid f es x ys d.1

abbrev pub with_event : Mtrack → Mevent → Mtrack
with_event t e = record t {
  events = t.events ++ chained t.events e ∷ [];
  len = length t.events + 1;
}

pub append_chained :
    (es : List Mevent) (t : Mtrack) (e : Mevent)
    → t.events ≡ es
    → t.len ≡ length es
    → append_mevent t e ≡ ok (record t { events = es ++ chained es e ∷ []; len = length es + 1 })
unfolding append_mevent
append_chained [] t e h n = rw n refl
append_chained (f ∷ es) t e h n = rw (n, h, last_of-cons f es) (ground arith)

-- On a track whose length field is right, appending never faults: it puts the event last, timed
-- from the event before it, and counts it.
pub append_mevent-IsChained :
    (t : Mtrack) (e : Mevent)
    → IsChained t
    → (append_mevent t e ≡ ok (with_event t e)) × IsChained (with_event t e)
append_mevent-IsChained t e c = (
  append_chained t.events t e refl c.counted,
  record {
    counted = omega (arith, length-append {0} t.events (chained t.events e ∷ []));
    deltas = extended t.events c.deltas;
  },
)
  where
    extended : (es : List Mevent) → Deltas es → Deltas (es ++ chained es e ∷ [])
    extended [] d = tt
    extended (f ∷ es) d = DeltasFrom-snoc f es _ d refl

chained-eq :
    (pre : List Mevent) (e : Mevent) (es : List Mevent) → Deltas (pre ++ e ∷ es) → chained pre e ≡ e
chained-eq [] e es d = refl
chained-eq (f ∷ fs) e es d =
    ap (λ (t : ℕ). record e { deltatime = t }) (sym (DeltasFrom-mid f fs e es d))

abbrev holding : Mtrack → List Mevent → Mtrack
holding t es = record t { events = es; len = length es }

holding_append :
    (t : Mtrack) (pre : List Mevent) (e : Mevent) (es : List Mevent)
    → Deltas (pre ++ e ∷ es)
    → append_mevent (holding t pre) e ≡ ok (holding t (pre ++ e ∷ []))
holding_append t pre e es d =
    append_chained pre (holding t pre) e refl refl ∙ rw (chained-eq pre e es d, length-append) refl

copy_chained :
    (t : Mtrack) (es pre : List Mevent)
    → Deltas (pre ++ es)
    → copy_events es (holding t pre) ≡ ok (holding t (pre ++ es))
unfolding copy_events mevent_copy
copy_chained t [] pre d = rw append-nil refl
copy_chained t (e ∷ es) pre d = rw (holding_append t pre e es d) (
    copy_chained t es (pre ++ e ∷ []) (subst Deltas (sym (append_assoc pre (e ∷ []) es)) d)
    ∙ ap (λ (l : List Mevent). ok (holding t l)) (append_assoc pre (e ∷ []) es))

-- What `Mtrack_copy` is to give: the same events and flag, and the strings up to a NUL.
abbrev pub duplicate : Mtrack → Mtrack
duplicate t = record t {
  name = cstrdup t.name;
  text = cstrdup t.text;
  instrument = cstrdup t.instrument;
}

pub mtrack_copy_lem : (t : Mtrack) → IsChained t → mtrack_copy t ≡ ok (duplicate t)
unfolding mtrack_copy
mtrack_copy_lem t c =
    copy_chained (duplicate t) t.events [] c.deltas
    ∙ ap (λ (n : ℕ). ok (record (duplicate t) { len = n })) (sym c.counted)
