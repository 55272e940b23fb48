-- ===== src/Project/Feed.antt =====
-- The live feed of the page: the newest rows of all its devices, newest first.
use mathlib.Core.List.{Perm}
use mathlib.Core.List.Perm
use ops_sys.Base.{
  ℕ, zero, suc, ◌≤◌, ◌≡◌, refl, sym, ap, ◌∙◌, subst, List, [], ◌∷◌, ◌++◌, map, arith, length, take,
  drop, ltb, All, min, length-take, Bool-cases, inl, inr, true, false, some, ◌==◌, ◌≢◌,
}
use ops_sys.Base.Text.{Text}
use ops_sys.Frames.{TelemetryFrame}
use ops_sys.Buffer.History.{newest, snapshot-push_all}
use ops_sys.Telemetry
use ops_sys.Telemetry.{Telemetry, capacity}
use ops_sys.Telemetry.Buffers.{since, buffer_of, get_buffer-run-initial}
use ops_sys.Project.{
  Page, max_feed_rows, somes, frames_in, all_frames, insert_frame, sort_frames, tick,
}

-- No frame of the list is newer than `t`.
abbrev pub IsBefore : ℕ → List TelemetryFrame → Type 0
IsBefore t fs = All (λ f. f.ts ≤ t) fs

-- Newest first.
abbrev pub IsNewestFirst : List TelemetryFrame → Type 0
IsNewestFirst [] = Unit
IsNewestFirst (f ∷ fs) = IsBefore f.ts fs × IsNewestFirst fs

IsBefore-mono : (s t : ℕ) (fs : List TelemetryFrame) → s ≤ t → IsBefore s fs → IsBefore t fs
IsBefore-mono s t [] h b = tt
IsBefore-mono s t (f ∷ fs) h b = (omega (arith, b.0), IsBefore-mono s t fs h b.1)

insert-IsBefore :
    (t : ℕ) (f : TelemetryFrame) (fs : List TelemetryFrame)
    → f.ts ≤ t
    → IsBefore t fs
    → IsBefore t (insert_frame f fs)
unfolding insert_frame
insert-IsBefore t f [] h b = (h, tt)
insert-IsBefore t f (g ∷ gs) h b = ground (arith, insert-IsBefore t f gs h b.1)

insert-IsNewestFirst :
    (f : TelemetryFrame) (fs : List TelemetryFrame)
    → IsNewestFirst fs
    → IsNewestFirst (insert_frame f fs)
unfolding insert_frame
insert-IsNewestFirst f [] s = (tt, tt)
insert-IsNewestFirst f (g ∷ gs) s =
    ground
      (arith, insert-IsNewestFirst f gs s.1, insert-IsBefore g.ts f gs, IsBefore-mono g.ts f.ts gs)

sort-IsNewestFirst : (fs : List TelemetryFrame) → IsNewestFirst (sort_frames fs)
unfolding sort_frames
sort-IsNewestFirst [] = tt
sort-IsNewestFirst (f ∷ fs) = insert-IsNewestFirst f (sort_frames fs) (sort-IsNewestFirst fs)

insert-perm : (f : TelemetryFrame) (fs : List TelemetryFrame) → Perm (insert_frame f fs) (f ∷ fs)
unfolding insert_frame
insert-perm f [] = Perm.refl (f ∷ [])
insert-perm f (g ∷ gs) = elim (Bool-cases (ltb f.ts g.ts)) [
  | inl older ↦ rw older (Perm.trans (Perm.cons g (insert-perm f gs)) (Perm.swap f g gs))
  | inr newer ↦ rw newer (Perm.refl (f ∷ g ∷ gs))
]

sort-perm : (fs : List TelemetryFrame) → Perm (sort_frames fs) fs
unfolding sort_frames
sort-perm [] = Perm.refl []
sort-perm (f ∷ fs) = Perm.trans (insert-perm f (sort_frames fs)) (Perm.cons f (sort-perm fs))

-- Every frame of `old` is at most as new as every frame of `rows`.
abbrev pub AreOlder : List TelemetryFrame → List TelemetryFrame → Type 0
AreOlder rows old = All (λ r. IsBefore r.ts old) rows

IsBefore-drop : (n t : ℕ) (fs : List TelemetryFrame) → IsBefore t fs → IsBefore t (drop n fs)
IsBefore-drop zero t fs b = b
IsBefore-drop (suc n) t [] b = tt
IsBefore-drop (suc n) t (f ∷ fs) b = IsBefore-drop n t fs b.1

take-drop-AreOlder :
    (n : ℕ) (fs : List TelemetryFrame) → IsNewestFirst fs → AreOlder (take n fs) (drop n fs)
take-drop-AreOlder zero fs s = tt
take-drop-AreOlder (suc n) [] s = tt
take-drop-AreOlder (suc n) (f ∷ fs) s = (IsBefore-drop n f.ts fs s.0, take-drop-AreOlder n fs s.1)

take-IsBefore : (n t : ℕ) (fs : List TelemetryFrame) → IsBefore t fs → IsBefore t (take n fs)
take-IsBefore zero t fs b = tt
take-IsBefore (suc n) t [] b = tt
take-IsBefore (suc n) t (f ∷ fs) b = (b.0, take-IsBefore n t fs b.1)

take-IsNewestFirst :
    (n : ℕ) (fs : List TelemetryFrame) → IsNewestFirst fs → IsNewestFirst (take n fs)
take-IsNewestFirst zero fs s = tt
take-IsNewestFirst (suc n) [] s = tt
take-IsNewestFirst (suc n) (f ∷ fs) s = (take-IsBefore n f.ts fs s.0, take-IsNewestFirst n fs s.1)

take-append-drop : (n : ℕ) (fs : List TelemetryFrame) → take n fs ++ drop n fs ≡ fs
take-append-drop zero fs = refl
take-append-drop (suc n) [] = refl
take-append-drop (suc n) (f ∷ fs) = ap (◌∷◌ f) (take-append-drop n fs)

-- The frames of the devices after a history of the store: for each device in turn, the last
-- thousand that came since its last reset.
abbrev pub gathered : List Telemetry.Event → List Text → List TelemetryFrame
gathered es [] = []
gathered es (id ∷ ids) = newest capacity (since id [] es) ++ gathered es ids

somes-map : (fs : List TelemetryFrame) → somes (map some fs) ≡ fs
somes-map [] = refl
somes-map (f ∷ fs) = ap (◌∷◌ f) (somes-map fs)

frames_in-buffer_of : (fs : List TelemetryFrame) → frames_in (buffer_of fs) ≡ newest capacity fs
frames_in-buffer_of [] = refl
frames_in-buffer_of (f ∷ fs) =
    rw ((snapshot-push_all capacity (f ∷ fs) (omega arith)).0)
      (somes-map (newest capacity (f ∷ fs)))

pub all_frames-gathered :
    (es : List Telemetry.Event) (ids : List Text)
    → all_frames ids (Telemetry.run Telemetry.initial es) ≡ gathered es ids
unfolding all_frames
all_frames-gathered es [] = refl
all_frames-gathered es (id ∷ ids) =
    rw
      (
        get_buffer-run-initial es id,
        frames_in-buffer_of (since id [] es),
        all_frames-gathered es ids,
      )
      refl

length-insert :
    (f : TelemetryFrame) (fs : List TelemetryFrame) → length (insert_frame f fs) ≡ suc (length fs)
unfolding insert_frame
length-insert f [] = refl
length-insert f (g ∷ gs) = ground (arith, length-insert f gs)

length-sort : (fs : List TelemetryFrame) → length (sort_frames fs) ≡ length fs
unfolding sort_frames
length-sort [] = refl
length-sort (f ∷ fs) = length-insert f (sort_frames fs) ∙ ap suc (length-sort fs)

-- What a feed shows of `fs`.
pub record IsFeed (rows fs : List TelemetryFrame) : Type 0 where
  pub ordered : IsNewestFirst rows
  pub counted : length rows ≡ min max_feed_rows (length fs)
  pub split : (old : List TelemetryFrame) × Perm (rows ++ old) fs × AreOlder rows old

sorted-IsFeed : (fs : List TelemetryFrame) → IsFeed (take max_feed_rows (sort_frames fs)) fs
sorted-IsFeed fs = record {
  ordered = take-IsNewestFirst max_feed_rows (sort_frames fs) (sort-IsNewestFirst fs);
  counted = length-take max_feed_rows (sort_frames fs) ∙ ap (min max_feed_rows) (length-sort fs);
  split = (
    drop max_feed_rows (sort_frames fs),
    subst (λ gs. Perm gs fs) (sym (take-append-drop max_feed_rows (sort_frames fs))) (sort-perm fs),
    take-drop-AreOlder max_feed_rows (sort_frames fs) (sort-IsNewestFirst fs),
  );
}

pub tick_new :
    (ids : List Text) (store : Telemetry) (p : Page)
    → store.generation ≢ p.generation_seen
    → tick ids store p ≡ record p {
      generation_seen = store.generation;
      feed_rows = take max_feed_rows (sort_frames (all_frames ids store));
    }
unfolding tick
tick_new ids store p new =
    let e : (store.generation == p.generation_seen) ≡ false = ground arith in rw e refl

tick_old :
    (ids : List Text) (store : Telemetry) (p : Page)
    → store.generation ≡ p.generation_seen
    → tick ids store p ≡ p
unfolding tick
tick_old ids store p old =
    let e : (store.generation == p.generation_seen) ≡ true = ground arith in rw e refl

-- After any history of the store whose counter the page has not seen, a tick shows at most five
-- hundred frames, newest first, out of the last thousand of each device since its last reset; no
-- frame left out is newer than one that is shown. A second tick changes nothing.
pub tick_lem :
    (es : List Telemetry.Event) (ids : List Text) (p : Page)
    → (Telemetry.run Telemetry.initial es).generation ≢ p.generation_seen
    → let store = Telemetry.run Telemetry.initial es in
      IsFeed (tick ids store p).feed_rows (gathered es ids)
      × (tick ids store (tick ids store p) ≡ tick ids store p)
tick_lem es ids p new = (
  rw (tick_new ids (Telemetry.run Telemetry.initial es) p new, all_frames-gathered es ids)
      (sorted-IsFeed (gathered es ids)),
  tick_old ids (Telemetry.run Telemetry.initial es)
      (tick ids (Telemetry.run Telemetry.initial es) p)
      (sym (ap (λ q. q.generation_seen) (tick_new ids (Telemetry.run Telemetry.initial es) p new))),
)
