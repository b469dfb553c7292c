-- ===== src/Log.antt =====
-- lib/log: the lines that the program prints.
use Prim.Native.String.{String}
use esk.Common.{
  ℕ, ◌<◌, ◌≡◌, ◌≢◌, refl, List, [], ◌∷◌, none, some, leb, ltb, if◌then◌else◌, get_elem?, Bool-cases,
  inl, inr, arith, zero, suc, Option, false,
}

-- `esk8_tag_l`, in the order of `esk8_log_tag_t`, and `esk8_lvl_l`, in that of `esk8_log_level_t`.
abbrev pub tag_l : List String
tag_l = "MAIN" ∷ "PS2" ∷ "BTN" ∷ "BLE" ∷ "NVS" ∷ "ATH" ∷ "ONB" ∷ "RMT" ∷ []

abbrev pub lvl_l : List String
lvl_l = "D" ∷ "I" ∷ "W" ∷ "E" ∷ []

-- ESK8_TAG_MAX
abbrev pub tag_max : ℕ
tag_max = 8

-- What a call prints: nothing, or a line with its level, its tag and its text. `fault` is a read behind an array.
pub data Line : Type 0 where
  silent : Line
  line : String → String → String → Line
  fault : Line

-- `esk8_log`, with ESK8_LOG_LEVEL and the text that `vprintf` makes.
unfoldable pub log : ℕ → ℕ → ℕ → String → Line
log log_level lvl tag text =
    if leb tag_max tag
    then silent
    else (if ltb lvl log_level then silent else elim (get_elem? lvl_l lvl) [
      | none ↦ fault
      | some lvl_str ↦ elim (get_elem? tag_l tag) [
        | none ↦ fault
        | some tag_str ↦ line lvl_str tag_str text
      ]
    ])

tag_l-found : (tag : ℕ) → leb tag_max tag ≡ false → (s : String) × (get_elem? tag_l tag ≡ some s)
tag_l-found zero h = (_, refl)
tag_l-found (suc zero) h = (_, refl)
tag_l-found (suc (suc zero)) h = (_, refl)
tag_l-found (suc (suc (suc zero))) h = (_, refl)
tag_l-found (suc (suc (suc (suc zero)))) h = (_, refl)
tag_l-found (suc (suc (suc (suc (suc zero))))) h = (_, refl)
tag_l-found (suc (suc (suc (suc (suc (suc zero)))))) h = (_, refl)
tag_l-found (suc (suc (suc (suc (suc (suc (suc zero))))))) h = (_, refl)
tag_l-found (suc (suc (suc (suc (suc (suc (suc (suc n)))))))) h = absurd (ground (arith, h))

lvl_l-found : (lvl : ℕ) → lvl < 4 → (c : String) × (get_elem? lvl_l lvl ≡ some c)
lvl_l-found zero h = (_, refl)
lvl_l-found (suc zero) h = (_, refl)
lvl_l-found (suc (suc zero)) h = (_, refl)
lvl_l-found (suc (suc (suc zero))) h = (_, refl)
lvl_l-found (suc (suc (suc (suc n)))) h = absurd (omega (arith, h))

shown :
    (o p : Option String) (c s text : String)
    → o ≡ some c
    → p ≡ some s
    → (elim o as (λ o. Line) [
      | none ↦ fault
      | some lvl_str ↦ elim p [ none ↦ fault | some tag_str ↦ line lvl_str tag_str text ]
    ])
      ≢ fault
shown o p c s text at_lvl at_tag = rw (at_lvl, at_tag) (λ e. cc e)

-- One of the four levels, with any tag, reads nothing behind the arrays.
pub log-ne-fault :
    (log_level lvl tag : ℕ) (text : String) → lvl < 4 → log log_level lvl tag text ≢ fault
unfolding log
log-ne-fault log_level lvl tag text lt = elim (Bool-cases (leb tag_max tag)) [
  | inl no_tag ↦ rw no_tag (λ e. cc e)
  | inr known ↦
      let (s, at_tag) = tag_l-found tag known in
      let (c, at_lvl) = lvl_l-found lvl lt in
      elim (Bool-cases (ltb lvl log_level)) [
        | inl low ↦ rw (known, low) (λ e. cc e)
        | inr high ↦
            rw (known, high)
              (shown (get_elem? lvl_l lvl) (get_elem? tag_l tag) c s text at_lvl at_tag)
      ]
]
