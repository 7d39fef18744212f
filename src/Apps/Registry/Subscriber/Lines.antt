-- ===== src/Apps/Registry/Subscriber/Lines.antt =====
-- What the registry subscriber has printed of the three sensors, and what its state says of it.
use zzdds_examples.Base.{
  ℕ, ◌≡◌, refl, ◌∙◌, ◌⊎◌, Bool, true, some, List, [], ◌∷◌, ◌++◌, All, All-append, Bool-cases, inl,
  inr, if◌then◌else◌,
}
use mathlib.Core.Path.{subst}
use zzdds_examples.Base.Text.{Text, codes}
use zzdds_examples.Base.Int.{ℤ, pos, ◌==ℤ◌, ==ℤ→eq}
use zzdds_examples.Base.Embeds.{Embeds, empty, Embeds-append, Embeds-snoc}
use zzdds_examples.Runtime.Event.{Event, printed, int, text, Observer, observed, failures}
use zzdds_examples.Runtime.Program.{World}
use zzdds_examples.Runtime.Contract.{Covers}
use zzdds_examples.Apps.Common.Keeps.{IgnoresSetup}
use zzdds_examples.Apps.Common.Receiver.{NoSample}
use zzdds_examples.Apps.Registry.Subscriber.{
  InstanceTrack, SubState, fresh_sub_state, find_track, put_track,
}
use zzdds_examples.Apps.Registry.Subscriber.Tracks.{
  Line, was_alive, lifecycle, Track, Track-append, All-Track-append, ids, put_track-keeps,
  ids-put_track, Found, find_track-Found,
}

-- The lines with a sensor and a state.
abbrev pub line_of : Event NoSample → List Line
line_of (printed s (int sensor_id ∷ text name ∷ [])) = (sensor_id, name) ∷ []
line_of e = []

abbrev pub lines : Observer NoSample Line
lines = record { see = line_of; blind = λ s args. refl; asleep = λ us short. refl }

pub lines-IgnoresSetup : IgnoresSetup lines
lines-IgnoresSetup = record {
  factory = refl;
  participant = λ domain. refl;
  registration = refl;
  topic = λ name type_name. refl;
  line = λ s name. refl;
}

abbrev pub start : World NoSample SubState
start = record { log = []; state = fresh_sub_state }

abbrev pub sensors : List ℤ
sensors = pos 1 ∷ pos 2 ∷ pos 3 ∷ []

-- One of the three sensors.
abbrev pub IsSensor : ℤ → Type 0
IsSensor n = (n ≡ pos 1) ⊎ (n ≡ pos 2) ⊎ (n ≡ pos 3)

-- Only lines about the three sensors.
abbrev pub Known : List Line → Type 0
Known xs = All (λ (l : Line). IsSensor l.0) xs

-- The lifecycles of the three sensors are among the lines.
abbrev pub Complete : List Line → Type 0
Complete xs = All (λ sensor_id. Embeds (lifecycle sensor_id) xs) sensors

-- The end of a subscriber that returned 0.
pub record Observed (w : World NoSample SubState) : Type 0 where
  pub quiet : failures w.log ≡ 0
  pub lifecycles : Complete (observed lines w.log)
  pub of_sensors : Known (observed lines w.log)

pub record Tracking (st : SubState) (xs : List Line) : Type 0 where
  pub same_ids : ids st.tracks ≡ sensors
  pub tracked : All (Track xs) st.tracks
  pub complete : st.all_done ≡ true → Complete xs
  pub of_sensors : Known xs

-- `became_done` says so only of complete lines.
abbrev pub Going : Bool → SubState → List Line → Type 0
Going became_done st xs = Tracking st xs × (became_done ≡ true → Complete xs)

pub lost : (b : Bool) → Covers (Going b) Known
lost b st xs h = h.0.of_sensors

Complete-append : (xs ys : List Line) → Complete xs → Complete (xs ++ ys)
Complete-append xs ys h =
    (Embeds-append ys h.0, (Embeds-append ys h.1.0, (Embeds-append ys h.1.1.0, tt)))

-- The track that the current sample is about.
abbrev pub Current : Bool → ℤ → InstanceTrack → SubState → List Line → Type 0
Current b sensor_id t st xs =
    Going b st xs × (Track xs t × (t.sensor_id ≡ sensor_id)) × IsSensor sensor_id

-- What is told of a track, before and with its line.
abbrev pub Facts : Line → InstanceTrack → List Line → Type 0
Facts l t ys = (xs : List Line) × (ys ≡ xs ++ l ∷ []) × (Track xs t × (t.sensor_id ≡ l.0))

-- Its line is printed.
abbrev pub Told : Bool → Line → InstanceTrack → SubState → List Line → Type 0
Told b l t st ys = Going b st ys × Facts l t ys

All-sensors :
    (ts : List InstanceTrack)
    → All IsSensor (ids ts)
    → All (λ (t : InstanceTrack). IsSensor t.sensor_id) ts
All-sensors [] h = tt
All-sensors (t ∷ ts) h = (h.0, All-sensors ts h.1)

both :
    (P Q : InstanceTrack → Type 0) (ts : List InstanceTrack)
    → All P ts
    → All Q ts
    → All (λ t. P t × Q t) ts
both P Q [] h k = tt
both P Q (t ∷ ts) h k = ((h.0, k.0), both P Q ts h.1 k.1)

sensors-IsSensor : All IsSensor sensors
sensors-IsSensor = (inl refl, (inr (inl refl), (inr (inr refl), tt)))

pub current :
    (b : Bool) (sensor_id : ℤ) (t : InstanceTrack) (st : SubState) (xs : List Line)
    → Going b st xs
    → find_track sensor_id st.tracks ≡ some t
    → Current b sensor_id t st xs
current b sensor_id t st xs h e =
    let is_sensor : All IsSensor (ids st.tracks) = rw h.0.same_ids sensors-IsSensor in
    let found =
      find_track-Found (λ u. Track xs u × IsSensor u.sensor_id) sensor_id st.tracks
        (both _ _ st.tracks h.0.tracked (All-sensors st.tracks is_sensor)) in
    let found' = subst (Found (λ u. Track xs u × IsSensor u.sensor_id) sensor_id) e found in
    (h, (found'.0.0, found'.1), rw (← found'.1) found'.0.1)

pub tell :
    (b : Bool) (l : Line) (t : InstanceTrack) (st : SubState) (xs : List Line)
    → Current b l.0 t st xs
    → Told b l t st (xs ++ l ∷ [])
tell b l t st xs (h, facts, is_sensor) = (
  (
    record {
      same_ids = h.0.same_ids;
      tracked = All-Track-append xs (l ∷ []) st.tracks h.0.tracked;
      complete = λ e. Complete-append xs _ (h.0.complete e);
      of_sensors = All-append _ xs (l ∷ []) h.0.of_sensors (is_sensor, tt);
    },
    λ e. Complete-append xs _ (h.1 e),
  ),
  (xs, refl, facts),
)

pub put-Going :
    (b : Bool) (t : InstanceTrack) (st : SubState) (xs : List Line)
    → Track xs t
    → Going b st xs
    → Going b (record st { tracks = put_track t st.tracks }) xs
put-Going b t st xs p h = (
  record {
    same_ids = ids-put_track t st.tracks ∙ h.0.same_ids;
    tracked = put_track-keeps (Track xs) t st.tracks p h.0.tracked;
    complete = h.0.complete;
    of_sensors = h.0.of_sensors;
  },
  h.1,
)

pub handled :
    (l : Line) (t : InstanceTrack) (handle : ℕ) (ys : List Line)
    → Facts l t ys
    → Facts l (record t { handle = handle }) ys
handled l t handle ys (xs, e, (h, same)) =
    (xs, e, (record { alive = h.alive; terminal = h.terminal }, same))

pub Facts-Track : (l : Line) (t : InstanceTrack) (ys : List Line) → Facts l t ys → Track ys t
Facts-Track l t ys (xs, e, (h, same)) = rw e (Track-append xs (l ∷ []) t h)

pub seen_alive :
    (n : ℤ) (t : InstanceTrack) (ys : List Line)
    → Facts (n, codes "ALIVE") t ys
    → Track ys (record t {
      seen_alive = true;
      reached_terminal = if t.sensor_id ==ℤ pos 3 then true else t.reached_terminal;
    })
seen_alive n t ys (xs, e, (h, same)) = record {
  alive = λ _. told;
  terminal = elim (Bool-cases (t.sensor_id ==ℤ pos 3)) [
    | inl third ↦
        λ _. rw (==ℤ→eq t.sensor_id (pos 3) third) (rw (← ==ℤ→eq t.sensor_id (pos 3) third) told)
    | inr other ↦ rw other (Facts-Track _ t ys (xs, e, (h, same))).terminal
  ];
}
  where
    told : Embeds (was_alive t.sensor_id) ys
    told = rw (e, same) (Embeds-snoc (n, codes "ALIVE") empty)

pub ended :
    (n : ℤ) (name : Text) (t : InstanceTrack) (ys : List Line)
    → Facts (n, name) t ys
    → lifecycle t.sensor_id ≡ was_alive t.sensor_id ++ (t.sensor_id, name) ∷ []
    → t.seen_alive ≡ true
    → Track ys (record t { reached_terminal = true })
ended n name t ys (xs, e, (h, same)) ends alive = record {
  alive = (Facts-Track _ t ys (xs, e, (h, same))).alive;
  terminal = λ _. rw (ends, e, ← same) (Embeds-snoc (t.sensor_id, name) (h.alive alive));
}
