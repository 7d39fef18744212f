-- ===== src/Apps/Registry/Subscriber/Tracks.antt =====
-- What the tracks of the registry subscriber say of the lines that it has printed.
use zzdds_examples.Base.{
  ◌≡◌, refl, Bool, true, false, Option, none, some, List, [], ◌∷◌, ◌++◌, map, All, if◌then◌else◌,
  Bool-cases, inl, inr, arith,
}
use zzdds_examples.Base.Text.{Text, codes}
use zzdds_examples.Base.Int.{ℤ, pos, ◌==ℤ◌, ==ℤ→eq}
use zzdds_examples.Base.Embeds.{Embeds, Embeds-append}
use zzdds_examples.Apps.Registry.Subscriber.{
  InstanceTrack, find_track, put_track, all_instances_done,
}

-- A line: the sensor and the name of the instance's state.
abbrev pub Line : Type 0
Line = ℤ × Text

abbrev pub was_alive : ℤ → List Line
was_alive sensor_id = (sensor_id, codes "ALIVE") ∷ []

-- The lines that a sensor's lifecycle wants, in this order.
abbrev pub lifecycle : ℤ → List Line
lifecycle sensor_id =
    if sensor_id ==ℤ pos 1
    then was_alive sensor_id ++ (sensor_id, codes "NOT_ALIVE_DISPOSED") ∷ []
    else if sensor_id ==ℤ pos 2
    then was_alive sensor_id ++ (sensor_id, codes "NOT_ALIVE_NO_WRITERS") ∷ []
    else was_alive sensor_id

-- The flags of a track are true of the lines.
pub record Track (xs : List Line) (t : InstanceTrack) : Type 0 where
  pub alive : t.seen_alive ≡ true → Embeds (was_alive t.sensor_id) xs
  pub terminal : t.reached_terminal ≡ true → Embeds (lifecycle t.sensor_id) xs

pub Track-append : (xs ys : List Line) (t : InstanceTrack) → Track xs t → Track (xs ++ ys) t
Track-append xs ys t h = record {
  alive = λ e. Embeds-append ys (h.alive e);
  terminal = λ e. Embeds-append ys (h.terminal e);
}

pub All-Track-append :
    (xs ys : List Line) (ts : List InstanceTrack) → All (Track xs) ts → All (Track (xs ++ ys)) ts
All-Track-append xs ys [] h = tt
All-Track-append xs ys (t ∷ ts) h = (Track-append xs ys t h.0, All-Track-append xs ys ts h.1)

abbrev pub ids : List InstanceTrack → List ℤ
ids ts = map (λ (t : InstanceTrack). t.sensor_id) ts

pub put_track-keeps :
    (P : InstanceTrack → Type 0) (t : InstanceTrack) (ts : List InstanceTrack)
    → P t
    → All P ts
    → All P (put_track t ts)
unfolding put_track
put_track-keeps P t [] p h = tt
put_track-keeps P t (u ∷ ts) p h =
    (kept (u.sensor_id ==ℤ t.sensor_id), put_track-keeps P t ts p h.1)
  where
    kept : (b : Bool) → P (if b then t else u)
    kept true = p
    kept false = h.0

pub ids-put_track : (t : InstanceTrack) (ts : List InstanceTrack) → ids (put_track t ts) ≡ ids ts
unfolding put_track
ids-put_track t [] = refl
ids-put_track t (u ∷ ts) = elim (Bool-cases (u.sensor_id ==ℤ t.sensor_id)) [
  | inl same ↦ rw (same, ids-put_track t ts, ==ℤ→eq u.sensor_id t.sensor_id same) refl
  | inr other ↦ rw (other, ids-put_track t ts) refl
]

abbrev pub Found : (InstanceTrack → Type 0) → ℤ → Option InstanceTrack → Type 0
Found P sensor_id none = Unit
Found P sensor_id (some t) = P t × (t.sensor_id ≡ sensor_id)

-- A track that is found is the sensor's.
pub find_track-Found :
    (P : InstanceTrack → Type 0) (sensor_id : ℤ) (ts : List InstanceTrack)
    → All P ts
    → Found P sensor_id (find_track sensor_id ts)
unfolding find_track
find_track-Found P sensor_id [] h = tt
find_track-Found P sensor_id (u ∷ ts) h = elim (Bool-cases (u.sensor_id ==ℤ sensor_id)) [
  | inl same ↦ rw same (h.0, ==ℤ→eq _ _ same)
  | inr other ↦ rw other (find_track-Found P sensor_id ts h.1)
]

-- When all instances are done, all lifecycles are among the lines.
pub done-lifecycles :
    (xs : List Line) (ts : List InstanceTrack)
    → All (Track xs) ts
    → all_instances_done ts ≡ true
    → All (λ sensor_id. Embeds (lifecycle sensor_id) xs) (ids ts)
unfolding all_instances_done
done-lifecycles xs [] h e = tt
done-lifecycles xs (t ∷ ts) h e = elim (Bool-cases t.reached_terminal) [
  | inl reached ↦ (h.0.terminal reached, done-lifecycles xs ts h.1 (ground arith))
  | inr missing ↦ absurd (ground arith)
]
