-- ===== src/Nvs/Places.antt =====
-- The place of a value in the configuration of components/nvs_manager/nvs_manager.c.
use modbus_vault.Base.{
  ℕ, ◌+◌, ◌-◌, ◌≤◌, ◌≡◌, sym, ap, ◌∙◌, List, ◌++◌, append_assoc, arith, length, length-take,
  length-replicate, length-splice, take, drop, drop-append, drop-take, splice, take-splice,
  take-splice_before, drop-splice_behind, replicate,
}
use modbus_vault.Nvs.{KeyMap, store_value}

-- The bytes of an entry's place.
abbrev pub place : KeyMap → List ℕ → List ℕ
place entry config = take entry.size (drop entry.offset config)

-- A value with the rest of its place cleared.
abbrev pub padded : KeyMap → List ℕ → List ℕ
padded entry value = value ++ replicate (entry.size - length value) 0

module _ (entry : KeyMap) (value config : List ℕ) where
  pub place-store_value :
      entry.offset + entry.size ≤ length config
      → length value ≤ entry.size
      → place entry (store_value entry value config) ≡ padded entry value
  unfolding store_value
  place-store_value inside small =
      sym (drop-take entry.offset entry.size (splice first (entry.offset + length value) zeros))
      ∙ ap (λ k. drop entry.offset (take k (splice first (entry.offset + length value) zeros)))
          sizes
      ∙ ap (drop entry.offset) (
          take-splice first (entry.offset + length value) zeros
            (omega (arith, sized, length-splice config entry.offset value)))
      ∙ ap (λ xs. drop entry.offset (xs ++ zeros))
          (take-splice config entry.offset value (omega arith))
      ∙ ap (drop entry.offset) (append_assoc (take entry.offset config) value zeros)
      ∙ ap (λ k. drop k (take entry.offset config ++ (value ++ zeros)))
          (omega (arith, length-take entry.offset config))
      ∙ drop-append (take entry.offset config) (value ++ zeros)
    where
      zeros : List ℕ
      zeros = replicate (entry.size - length value) 0

      first : List ℕ
      first = splice config entry.offset value

      sized : length zeros ≡ entry.size - length value
      sized = length-replicate {A = ℕ} (entry.size - length value) 0

      sizes : entry.offset + entry.size ≡ entry.offset + length value + length zeros
      sizes = omega (arith, sized)

  -- A place that ends before the entry or starts behind it.
  pub place-before :
      (other : KeyMap)
      → other.offset + other.size ≤ entry.offset
      → place other (store_value entry value config) ≡ place other config
  unfolding store_value
  place-before other h =
      sym (drop-take other.offset other.size (splice first (entry.offset + length value) zeros))
      ∙ ap (drop other.offset) (
          take-splice_before first (entry.offset + length value) (other.offset + other.size) zeros
            (omega arith)
          ∙ take-splice_before config entry.offset (other.offset + other.size) value h)
      ∙ drop-take other.offset other.size config
    where
      zeros : List ℕ
      zeros = replicate (entry.size - length value) 0

      first : List ℕ
      first = splice config entry.offset value

  pub place-behind :
      (other : KeyMap)
      → length value ≤ entry.size
      → entry.offset + entry.size ≤ other.offset
      → place other (store_value entry value config) ≡ place other config
  unfolding store_value
  place-behind other small h = ap (take other.size) (
      drop-splice_behind first (entry.offset + length value) zeros other.offset
        (omega (arith, length-replicate {A = ℕ} (entry.size - length value) 0))
      ∙ drop-splice_behind config entry.offset value other.offset (omega arith))
    where
      zeros : List ℕ
      zeros = replicate (entry.size - length value) 0

      first : List ℕ
      first = splice config entry.offset value
