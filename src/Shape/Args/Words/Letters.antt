-- ===== src/Shape/Args/Words/Letters.antt =====
-- The options that hold a letter, the topic, and the two 16-bit numbers.
use zzdds_examples.Base.{
  ℕ, ◌==◌, ◌<◌, ◌^◌, ◌≡◌, refl, ap, ◌⊎◌, none, some, List, ◌∷◌, arith, if◌then◌else◌,
}
use zzdds_examples.Base.Text.{Text, codes}
use zzdds_examples.Base.Int.{to_u16}
use zzdds_examples.Base.Number.{strtoul, to_string, strtoul-to_string, converts-to_string}
use zzdds_examples.Shape.Options.{Options}
use zzdds_examples.Shape.Args.{Setting, flag_of, set_value, parse_loop}
use zzdds_examples.Shape.Args.Words.{char_word, value_step, char_word_lem}

pub durability_step :
    (v : ℕ) (rest : List Text) (a : Options)
    → 0 < v
    → parse_loop (codes "-D" ∷ char_word v ∷ rest) none a
      ≡ parse_loop rest none (record a { durability = v })
unfolding flag_of set_value
durability_step v rest a h = value_step Setting.durability _ _ rest a _ refl (
    ap (λ k. some (record a { durability = k })) (char_word_lem v b'v' (λ e. absurd (omega arith))))

pub access_scope_step :
    (v : ℕ) (rest : List Text) (a : Options)
    → 0 < v
    → parse_loop (codes "--access-scope" ∷ char_word v ∷ rest) none a
      ≡ parse_loop rest none (record a { access_scope = v })
unfolding flag_of set_value
access_scope_step v rest a h = value_step Setting.access_scope _ _ rest a _ refl (
    ap (λ k. some (record a { access_scope = k }))
      (char_word_lem v b'i' (λ e. absurd (omega arith))))

pub final_instance_state_step :
    (v : ℕ) (rest : List Text) (a : Options)
    → parse_loop (codes "--final-instance-state" ∷ char_word v ∷ rest) none a
      ≡ parse_loop rest none (record a { final_instance_state = v })
unfolding flag_of set_value
final_instance_state_step v rest a =
    value_step Setting.final_state _ _ rest a _ refl
      (ap (λ k. some (record a { final_instance_state = k })) (char_word_lem v 0 (λ e. refl)))

pub topic_name_step :
    (v : Text) (rest : List Text) (a : Options)
    → parse_loop (codes "-t" ∷ v ∷ rest) none a ≡ parse_loop rest none (record a { topic_name = v })
unfolding flag_of set_value
topic_name_step v rest a = value_step Setting.topic _ v rest a _ refl refl

representation_word :
    (n : ℕ) → (n ≡ 1) ⊎ (n ≡ 2) → (if to_u16 (strtoul (to_string n)) == 2 then 2 else 1) ≡ n
representation_word n h = rw (strtoul-to_string n (ground arith)) (ground arith)

pub data_representation_step :
    (v : ℕ) (rest : List Text) (a : Options)
    → (v ≡ 1) ⊎ (v ≡ 2)
    → parse_loop (codes "-x" ∷ to_string v ∷ rest) none a
      ≡ parse_loop rest none (record a { data_representation = v })
unfolding flag_of set_value
data_representation_step v rest a h =
    value_step Setting.representation _ _ rest a _ refl
      (ap (λ k. some (record a { data_representation = k })) (representation_word v h))

datafrag_word :
    (n : ℕ) (a : Options)
    → n < 2 ^ 16
    → set_value Setting.datafrag (to_string n) a ≡ some (record a { datafrag_size = n })
unfolding set_value
datafrag_word n a h = rw (strtoul-to_string n (omega arith), converts-to_string n) (ground arith)

pub datafrag_size_step :
    (v : ℕ) (rest : List Text) (a : Options)
    → v < 2 ^ 16
    → parse_loop (codes "-Z" ∷ to_string v ∷ rest) none a
      ≡ parse_loop rest none (record a { datafrag_size = v })
unfolding flag_of
datafrag_size_step v rest a h = value_step Setting.datafrag _ _ rest a _ refl (datafrag_word v a h)
