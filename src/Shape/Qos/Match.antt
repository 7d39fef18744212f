-- ===== src/Shape/Qos/Match.antt =====
-- When a writer and a reader that the QoS builders make match: the rules by which DDS compares an
-- offered with a requested policy, for the policies that the builders set.
use zzdds_examples.Base.{
  ℕ, ◌+◌, ◌*◌, ◌<◌, ◌≤◌, ◌≡◌, refl, sym, ◌∙◌, ◌↔◌, ◌⊎◌, ◌&&◌, ◌||◌, ltb, leb, ◌==◌, Bool, true,
  false, not, List, [], ◌∷◌, if◌then◌else◌, arith, leb→le, le→leb,
}
use zzdds_examples.Base.Int.{ℤ, pos, pos_part, ltb_ℤ, ◌==ℤ◌, is_negative}
use zzdds_examples.Dds.{
  ReliabilityKind, DurabilityKind, OwnershipKind, LivelinessKind, Representation, Duration,
  WriterQos, ReaderQos,
}
use zzdds_examples.Shape.Options.{Options}
use zzdds_examples.Shape.Qos.{
  reliability_kind, durability_kind, set_representation, duration_from_ms, period_or, ownership_or,
  writer_qos, reader_qos,
}

-- Everything below 2^31 seconds is exact.
abbrev pub longest_ms : ℕ
longest_ms = 2147483648000

-- The nanoseconds of a duration that is not negative.
abbrev pub nanoseconds : Duration → ℕ
nanoseconds d = pos_part d.sec * 1000000000 + d.nanosec

-- A duration of less than 2^31 seconds keeps its length: nothing wraps, and the nanoseconds are
-- those of a part of a second.
pub duration_from_ms_exact :
    (ms : ℕ)
    → ms < longest_ms
    → (nanoseconds (duration_from_ms ms) ≡ ms * 1000000)
      × ((duration_from_ms ms).nanosec < 1000000000)
unfolding duration_from_ms
duration_from_ms_exact ms h = ground arith

-- Lexicographic, as DDS compares durations.
abbrev le_duration : Duration → Duration → Bool
le_duration a b = ltb_ℤ a.sec b.sec || (a.sec ==ℤ b.sec && leb a.nanosec b.nanosec)

-- DDS::DURATION_INFINITE
abbrev infinite : Duration
infinite = record { sec = pos 2147483647; nanosec = 2147483647 }

abbrev durability_rank : DurabilityKind → ℕ
durability_rank DurabilityKind.volatile = 0
durability_rank DurabilityKind.transient_local = 1
durability_rank DurabilityKind.transient = 2
durability_rank DurabilityKind.persistent = 3

abbrev reliability_rank : ReliabilityKind → ℕ
reliability_rank ReliabilityKind.best_effort = 0
reliability_rank ReliabilityKind.reliable = 1

abbrev liveliness_rank : LivelinessKind → ℕ
liveliness_rank LivelinessKind.automatic = 0
liveliness_rank LivelinessKind.manual_by_participant = 1
liveliness_rank LivelinessKind.manual_by_topic = 2

abbrev exclusive_rank : OwnershipKind → ℕ
exclusive_rank OwnershipKind.shared = 0
exclusive_rank OwnershipKind.exclusive = 1

abbrev representation_id : Representation → ℕ
representation_id Representation.xcdr = 0
representation_id Representation.xcdr2 = 2

-- A writer offers its first representation; the reader must list it.
abbrev offers : List Representation → List Representation → Bool
offers [] requested = false
offers (r ∷ rs) [] = false
offers (r ∷ rs) (q ∷ qs) = representation_id r == representation_id q || offers (r ∷ rs) qs

abbrev unless : Bool → ℕ → List ℕ → List ℕ
unless b id ids = if b then ids else id ∷ ids

-- The ids of the policies in which a requested QoS is not met by an offered one.
unfoldable pub incompatible : WriterQos → ReaderQos → List ℕ
incompatible offered requested =
    unless (leb (durability_rank requested.durability) (durability_rank offered.durability)) 2 (
      unless (le_duration offered.deadline requested.deadline) 4 (
        unless (exclusive_rank offered.ownership == exclusive_rank requested.ownership) 6 (
          unless
            (leb (liveliness_rank requested.liveliness) (liveliness_rank offered.liveliness)
              && le_duration offered.lease requested.lease)
            8
            (unless
              (leb (reliability_rank requested.reliability) (reliability_rank offered.reliability))
              11 (unless (offers offered.representation requested.representation) 23 [])))))

-- How lasting a letter of -D is: l, t and p above every other.
abbrev pub letter_rank : ℕ → ℕ
letter_rank letter =
    if letter == b'p' then 3 else if letter == b't' then 2 else if letter == b'l' then 1 else 0

durability_letter : (letter : ℕ) → durability_rank (durability_kind letter) ≡ letter_rank letter
unfolding durability_kind
durability_letter letter = ground arith

-- What two command lines must have in common for their endpoints to match.
pub record Agree (p s : Options) : Type 0 where
  pub durable : letter_rank s.durability ≤ letter_rank p.durability
  pub in_time : (s.deadline_ms ≡ 0) ⊎ ((0 < p.deadline_ms) × (p.deadline_ms ≤ s.deadline_ms))
  pub owned : is_negative p.ownership_strength ≡ is_negative s.ownership_strength
  pub reliable : (p.best_effort && not p.reliable && not (s.best_effort && not s.reliable)) ≡ false
  pub encoded : (p.data_representation == 2) ≡ (s.data_representation == 2)

-- The default QoS of a writer and a reader that the DDS specification gives.
pub record SpecDefaults (w : WriterQos) (r : ReaderQos) : Type 0 where
  pub writer_deadline : w.deadline ≡ infinite
  pub reader_deadline : r.deadline ≡ infinite
  pub writer_ownership : w.ownership ≡ OwnershipKind.shared
  pub reader_ownership : r.ownership ≡ OwnershipKind.shared
  pub live : leb (liveliness_rank r.liveliness) (liveliness_rank w.liveliness) ≡ true
  pub leased : le_duration w.lease r.lease ≡ true

unless_met : (b : Bool) (id : ℕ) (ids : List ℕ) → unless b id ids ≡ [] → (b ≡ true) × (ids ≡ [])
unless_met true id ids e = (refl, e)
unless_met false id ids e = cc

met : (b : Bool) (id : ℕ) (ids : List ℕ) → b ≡ true → ids ≡ [] → unless b id ids ≡ []
met b id ids e e' = rw (e, e') refl

deadline_ok :
    (a b : ℕ)
    → a < longest_ms
    → b < longest_ms
    → le_duration (period_or infinite a) (period_or infinite b) ≡ (b == 0 || (ltb 0 a && leb a b))
unfolding period_or duration_from_ms
deadline_ok a b ha hb = ground arith

ownership_ok :
    (x y : ℤ)
    → ((exclusive_rank (ownership_or OwnershipKind.shared x)
          == exclusive_rank (ownership_or OwnershipKind.shared y))
        ≡ true)
      ↔ (is_negative x ≡ is_negative y)
unfolding ownership_or
ownership_ok x y = (λ h. ground arith, λ h. ground arith)

representation_ok :
    (a b : ℕ)
    → (offers (set_representation a) (set_representation b) ≡ true) ↔ ((a == 2) ≡ (b == 2))
unfolding set_representation
representation_ok a b = (λ h. ground arith, λ h. ground arith)

reliability_ok :
    (p s : Options)
    → (leb (reliability_rank (reliability_kind s)) (reliability_rank (reliability_kind p)) ≡ true)
      ↔ ((p.best_effort && not p.reliable && not (s.best_effort && not s.reliable)) ≡ false)
unfolding reliability_kind
reliability_ok p s = (λ h. ground arith, λ h. ground arith)

in_time_ok : (a b : ℕ) → ((b == 0 || (ltb 0 a && leb a b)) ≡ true) ↔ ((b ≡ 0) ⊎ ((0 < a) × (a ≤ b)))
in_time_ok a b = (λ h. ground arith, λ h. ground arith)

module _ (p s : Options) (w : WriterQos) (r : ReaderQos) (spec : SpecDefaults w r)
    (offered_short : p.deadline_ms < longest_ms)
    (requested_short : s.deadline_ms < longest_ms) where
  deadlines :
      le_duration (period_or w.deadline p.deadline_ms) (period_or r.deadline s.deadline_ms)
      ≡ (s.deadline_ms == 0 || (ltb 0 p.deadline_ms && leb p.deadline_ms s.deadline_ms))
  deadlines =
      rw (spec.writer_deadline, spec.reader_deadline)
        (deadline_ok _ _ offered_short requested_short)

  Agree-if : incompatible (writer_qos p w) (reader_qos s r) ≡ [] → Agree p s
  unfolding incompatible writer_qos reader_qos
  Agree-if h =
      let h2 = unless_met _ 2 _ h in
      let h4 = unless_met _ 4 _ h2.1 in
      let h6 =
        unless_met
          (exclusive_rank (ownership_or w.ownership p.ownership_strength)
            == exclusive_rank (ownership_or r.ownership s.ownership_strength))
          6 _ h4.1 in
      let h8 = unless_met _ 8 _ h6.1 in
      let h11 = unless_met _ 11 _ h8.1 in
      let h23 = unless_met _ 23 [] h11.1 in
      record {
        durable =
            rw (← durability_letter s.durability, ← durability_letter p.durability)
              (leb→le _ _ h2.0);
        in_time = (in_time_ok _ _).0 (sym deadlines ∙ h4.0);
        owned =
            (ownership_ok p.ownership_strength s.ownership_strength).0
              (rw (spec.writer_ownership, spec.reader_ownership) at h6.0);
        reliable = (reliability_ok p s).0 h11.0;
        encoded = (representation_ok p.data_representation s.data_representation).0 h23.0;
      }

  Agree-only : Agree p s → incompatible (writer_qos p w) (reader_qos s r) ≡ []
  unfolding incompatible writer_qos reader_qos
  Agree-only a =
      met _ _ _
        (le→leb _ _ (rw (durability_letter s.durability, durability_letter p.durability) a.durable))
        (met _ _ _ (deadlines ∙ (in_time_ok _ _).1 a.in_time) (
          met _ _ _
            (rw (spec.writer_ownership, spec.reader_ownership)
              ((ownership_ok p.ownership_strength s.ownership_strength).1 a.owned))
            (met _ _ _ (rw (spec.live, spec.leased) refl) (
              met _ _ _ ((reliability_ok p s).1 a.reliable) (
                met _ _ _
                  ((representation_ok p.data_representation s.data_representation).1 a.encoded)
                  refl)))))

  -- Where the QoS that the builders start from has the specification's infinite deadline and shared
  -- ownership, and a liveliness that matches, and both deadlines are below 2^31 seconds: the QoS made
  -- of two command lines match by the DDS rules for durability, deadline, ownership, liveliness,
  -- reliability and representation exactly if the command lines agree: the reader's durability letter
  -- is no more lasting, the reader asks for no deadline or for one that the writer's is not above, both
  -- or neither give a strength that is not negative, only a reader that is best-effort too has a
  -- best-effort writer, and both or neither choose representation 2. PRESENTATION and PARTITION, which
  -- the publisher and the subscriber carry, are not compared.
  pub compatible_iff_Agree : (incompatible (writer_qos p w) (reader_qos s r) ≡ []) ↔ Agree p s
  compatible_iff_Agree = (Agree-if, Agree-only)
