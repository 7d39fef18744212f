-- ===== src/Apps/Presence/Subscriber/Cycle.antt =====
-- The cycle that the presence subscriber looks for.
use zzdds_examples.Base.{◌≡◌, refl, sym, ◌∙◌, ap, ◌↔◌, Bool, true, false, List, [], ◌∷◌, ◌++◌}
use zzdds_examples.Base.Embeds.{Embeds, empty, skip, keep, unkeep, unskip, not_empty}
use zzdds_examples.Base.Int.{ℤ, pos, ltb_ℤ}
use zzdds_examples.Apps.Presence.Subscriber.{
  Phase, waiting_first_online, waiting_offline, waiting_second_online, done, SubState,
  fresh_sub_state, advance,
}

-- What the phase waits for.
abbrev pub wanted : Phase → List Bool
wanted waiting_first_online = true ∷ false ∷ true ∷ []
wanted waiting_offline = false ∷ true ∷ []
wanted waiting_second_online = true ∷ []
wanted done = []

-- The phase after the statuses `xs`, `true` for an online one.
unfoldable pub advance_all : List Bool → SubState → SubState
advance_all [] st = st
advance_all (x ∷ xs) st = advance_all xs (advance x st.phase st)

abbrev pub is_online : ℤ → Bool
is_online alive_count = ltb_ℤ (pos 0) alive_count

pub advance_all-append :
    (xs ys : List Bool) (st : SubState)
    → advance_all (xs ++ ys) st ≡ advance_all ys (advance_all xs st)
unfolding advance_all
advance_all-append [] ys st = refl
advance_all-append (x ∷ xs) ys st = advance_all-append xs ys _

abbrev is_done : Phase → Bool
is_done done = true
is_done p = false

-- The flag tells whether the phase is the last one.
abbrev pub Flagged : SubState → Type 0
Flagged st = st.cycle_complete ≡ is_done st.phase

pub advance-Flagged :
    (x : Bool) (p : Phase) (st : SubState) → st.phase ≡ p → Flagged st → Flagged (advance x p st)
unfolding advance
advance-Flagged true waiting_first_online st e h = h ∙ ap is_done e
advance-Flagged false waiting_first_online st e h = h
advance-Flagged true waiting_offline st e h = h
advance-Flagged false waiting_offline st e h = h ∙ ap is_done e
advance-Flagged true waiting_second_online st e h = refl
advance-Flagged false waiting_second_online st e h = h
advance-Flagged x done st e h = h

-- One status.
advance-wanted :
    (x : Bool) (p : Phase) (st : SubState) (xs : List Bool)
    → st.phase ≡ p
    → Embeds (wanted (advance x p st).phase) xs ↔ Embeds (wanted p) (x ∷ xs)
unfolding advance
advance-wanted true waiting_first_online st xs e = (keep, unkeep)
advance-wanted false waiting_first_online st xs e = rw e (skip, unskip (λ h. cc))
advance-wanted true waiting_offline st xs e = rw e (skip, unskip (λ h. cc))
advance-wanted false waiting_offline st xs e = (keep, unkeep)
advance-wanted true waiting_second_online st xs e = (keep, unkeep)
advance-wanted false waiting_second_online st xs e = rw e (skip, unskip (λ h. cc))
advance-wanted x done st xs e = rw e (λ h. empty, λ h. empty)

complete_iff :
    (xs : List Bool) (st : SubState)
    → Flagged st
    → ((advance_all xs st).cycle_complete ≡ true) ↔ Embeds (wanted st.phase) xs
unfolding advance_all
complete_iff [] st h = (λ e. ended st.phase (sym h ∙ e), λ e. h ∙ over st.phase e)
  where
    ended : (p : Phase) → is_done p ≡ true → Embeds (wanted p) []
    ended done e = empty
    ended waiting_first_online e = cc
    ended waiting_offline e = cc
    ended waiting_second_online e = cc

    over : (p : Phase) → Embeds (wanted p) [] → is_done p ≡ true
    over done e = refl
    over waiting_first_online e = elim (not_empty e) [ ]
    over waiting_offline e = elim (not_empty e) [ ]
    over waiting_second_online e = elim (not_empty e) [ ]
complete_iff (x ∷ xs) st h =
    let (to, from) =
      complete_iff xs (advance x st.phase st) (advance-Flagged x st.phase st refl h) in
    let (back, on) = advance-wanted x st.phase st xs refl in (λ e. back (to e), λ e. from (on e))

-- After any sequence of liveliness statuses the subscriber says that the cycle is complete exactly if
-- there were an online status, a later offline one and a later online one.
pub cycle_complete_iff :
    (statuses : List Bool)
    → ((advance_all statuses fresh_sub_state).cycle_complete ≡ true)
      ↔ Embeds (true ∷ false ∷ true ∷ []) statuses
cycle_complete_iff statuses = complete_iff statuses fresh_sub_state refl
