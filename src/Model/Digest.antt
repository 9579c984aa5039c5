-- ===== src/Model/Digest.antt =====
-- src/model.ts: `stableStringify` and `digest`, over a data type of JSON values. The hash and the JSON
-- form of a text, which Node supplies, are a parameter.
use Prim.Native.Nat.{◌/◌, ◌%◌}
use Prim.Native.Char.{code}
use Prim.Native.String as Str
use herdr_harness_lite.Base.{
  Bool, String, List, if◌then◌else◌, ℕ, true, [], ltb, ◌∷◌, false, ◌+◌, map, ◌||◌, sort_by, ◌-◌,
  ◌==◌, ◌&&◌, nat_eq,
}
use herdr_harness_lite.Base.Text.{◌<>◌, show_number, join}
use herdr_harness_lite.Model.Platform.{Platform}

mutual
  -- The fields of an object, in the order in which it was built.
  pub data Fields : Type 0 where
    field : String → Value → Fields → Fields
    end : Fields

  pub data Items : Type 0 where
    item : Value → Items → Items
    no_items : Items

  pub data Value : Type 0 where
    obj : Fields → Value
    arr : Items → Value
    null : Value
    str : String → Value
    num : ℕ → Value
    bool : Bool → Value

-- The UTF-16 code units of a text, by which `sort` compares keys.
units : String → List ℕ
units Str.[] = []
units (Str.◌∷◌ c s) =
    let n = code c in
    let rest = units s in
    if ltb n 0x10000
    then n ∷ rest
    else (0xd800 + (n - 0x10000) / 0x400) ∷ (0xdc00 + (n - 0x10000) % 0x400) ∷ rest

lex_le : List ℕ → List ℕ → Bool
lex_le [] ys = true
lex_le (x ∷ xs) [] = false
lex_le (x ∷ xs) (y ∷ ys) = ltb x y || x == y && lex_le xs ys

-- `sort()` of texts: the order of their code units.
unfoldable pub text_le : String → String → Bool
unfolding lex_le units
text_le a b = lex_le (units a) (units b)

abbrev key_order : String × String → String × String → Bool
key_order a b = lex_le (units a.0) (units b.0)

module _ (platform : Platform) where
  abbrev pair_text : String × String → String
  pair_text (key, text) = platform.json_string key <> ":" <> text

  unfoldable mutual
    unfolding lex_le units

    pub stable_stringify : Value → String
    stable_stringify null = "null"
    stable_stringify (bool b) = if b then "true" else "false"
    stable_stringify (num n) = show_number n
    stable_stringify (str s) = platform.json_string s
    stable_stringify (arr vs) = "[" <> join "," (item_texts vs) <> "]"
    stable_stringify (obj fs) =
        "{" <> join "," (map pair_text (sort_by key_order (field_texts fs))) <> "}"

    pub item_texts : Items → List String
    item_texts no_items = []
    item_texts (item v vs) = stable_stringify v ∷ item_texts vs

    pub field_texts : Fields → List (String × String)
    field_texts end = []
    field_texts (field key v fs) = (key, stable_stringify v) ∷ field_texts fs

  unfoldable pub digest : Value → String
  unfolding stable_stringify
  digest value = platform.sha256 (stable_stringify value)
