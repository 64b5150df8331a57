-- ===== src/Telemetry/Topics.antt =====
-- The topics of components/telemetry_service/telemetry_service.c, as lists of character codes. There
-- are as many topics as suffixes.
use modbus_vault.Base.{
  ℕ, ◌+◌, ◌-◌, ◌≤◌, ◌<◌, ◌≡◌, refl, ◌∙◌, false, ◌&&◌, List, [], ◌∷◌, ◌++◌, Option, none, some,
  if◌then◌else◌, ltb, lt→ltb, arith, length, length-append, take,
}
use native.Mathlib.Decide.{dec_lt}
use modbus_vault.Base.{EspErr, esp_ok, esp_err_invalid_arg, esp_err_invalid_size}

abbrev pub full_topic_max_size : ℕ
full_topic_max_size = 128

-- "devices/"
abbrev pub topic_base : List ℕ
topic_base = 100 ∷ 101 ∷ 118 ∷ 105 ∷ 99 ∷ 101 ∷ 115 ∷ 47 ∷ []

-- "/modbus/live", "/modbus/replay" and "/modbus/status"
abbrev pub live : List ℕ
live = 47 ∷ 109 ∷ 111 ∷ 100 ∷ 98 ∷ 117 ∷ 115 ∷ 47 ∷ 108 ∷ 105 ∷ 118 ∷ 101 ∷ []

abbrev pub replay : List ℕ
replay = 47 ∷ 109 ∷ 111 ∷ 100 ∷ 98 ∷ 117 ∷ 115 ∷ 47 ∷ 114 ∷ 101 ∷ 112 ∷ 108 ∷ 97 ∷ 121 ∷ []

abbrev pub status : List ℕ
status = 47 ∷ 109 ∷ 111 ∷ 100 ∷ 98 ∷ 117 ∷ 115 ∷ 47 ∷ 115 ∷ 116 ∷ 97 ∷ 116 ∷ 117 ∷ 115 ∷ []

abbrev pub topic_suffixes : List (List ℕ)
topic_suffixes = live ∷ replay ∷ status ∷ []

abbrev pub full_topic : List ℕ → List ℕ → List ℕ
full_topic device_id suffix = topic_base ++ device_id ++ suffix

-- The loop of `generate_topics_internal`: `snprintf` writes what fits before the final zero, and the
-- first topic that does not fit ends it.
unfoldable pub fill_topics : List (List ℕ) → List ℕ → List (List ℕ) → EspErr × List (List ℕ)
fill_topics [] device_id topics = (esp_ok, topics)
fill_topics (suffix ∷ suffixes) device_id [] = (esp_ok, [])
fill_topics (suffix ∷ suffixes) device_id (topic ∷ topics) =
    let full = full_topic device_id suffix in
    let written = take (full_topic_max_size - 1) full in
    let (e, rest) = fill_topics suffixes device_id topics in
    if ltb 0 (length full) && ltb (length full) full_topic_max_size
    then (e, written ∷ rest)
    else (esp_err_invalid_size, written ∷ topics)

-- `generate_topics_internal`; `none` is a NULL `device_id_ptr`.
unfoldable pub generate_topics : Option (List ℕ) → List (List ℕ) → EspErr × List (List ℕ)
unfolding fill_topics
generate_topics none topics = (esp_err_invalid_arg, topics)
generate_topics (some device_id) topics = fill_topics topic_suffixes device_id topics

filled : (device_id : List ℕ) → (fill_topics [] device_id []).0 ≡ esp_ok
unfolding fill_topics
filled device_id = refl

le→ltb : (a b : ℕ) → b ≤ a → ltb a b ≡ false
le→ltb a b h = ground arith

length-full_topic :
    (device_id suffix : List ℕ)
    → length (full_topic device_id suffix) ≡ 8 + length device_id + length suffix
length-full_topic device_id suffix = omega (arith, length-append device_id suffix)

module _ (device_id suffix topic : List ℕ) (suffixes topics : List (List ℕ)) where
  fill_topics-fits :
      length device_id + length suffix < 120
      → (fill_topics (suffix ∷ suffixes) device_id (topic ∷ topics)).0
        ≡ (fill_topics suffixes device_id topics).0
  unfolding fill_topics
  fill_topics-fits h =
      let size = length-full_topic device_id suffix in
      rw
        (
          lt→ltb 0 (length (full_topic device_id suffix)) (omega (arith, size)),
          lt→ltb (length (full_topic device_id suffix)) full_topic_max_size (omega (arith, size)),
        )
        refl

  fill_topics-too_long :
      120 ≤ length device_id + length suffix
      → (fill_topics (suffix ∷ suffixes) device_id (topic ∷ topics)).0 ≡ esp_err_invalid_size
  unfolding fill_topics
  fill_topics-too_long h =
      let size = length-full_topic device_id suffix in
      rw
        (
          lt→ltb 0 (length (full_topic device_id suffix)) (omega (arith, size)),
          le→ltb (length (full_topic device_id suffix)) full_topic_max_size (omega (arith, size)),
        )
        refl

-- The topics of a device can be generated if its id has 105 characters or fewer, and cannot if it
-- has more.
pub generate_topics-lengths :
    (device_id a b c : List ℕ)
    → (length device_id ≤ 105 → (generate_topics (some device_id) (a ∷ b ∷ c ∷ [])).0 ≡ esp_ok)
      × (105 < length device_id
          → (generate_topics (some device_id) (a ∷ b ∷ c ∷ [])).0 ≡ esp_err_invalid_size)
unfolding generate_topics
generate_topics-lengths device_id a b c = (
  λ short.
      fill_topics-fits device_id live a (replay ∷ status ∷ []) (b ∷ c ∷ []) (omega arith)
      ∙ fill_topics-fits device_id replay b (status ∷ []) (c ∷ []) (omega arith)
      ∙ fill_topics-fits device_id status c [] [] (omega arith)
      ∙ filled device_id,
  λ long. elim (dec_lt (length device_id) 108) [
    | yes below ↦
        fill_topics-fits device_id live a (replay ∷ status ∷ []) (b ∷ c ∷ []) (omega arith)
        ∙ fill_topics-too_long device_id replay b (status ∷ []) (c ∷ []) (omega arith)
    | no above ↦
        fill_topics-too_long device_id live a (replay ∷ status ∷ []) (b ∷ c ∷ [])
          (omega (arith, above))
  ],
)
