-- ===== src/Coordinator/Parallel/Json.antt =====
-- The results of inference, `map[string]any`, as decoded by encoding/json, and their checksums:
-- internal/coordinator/parallelverifier.go. A text is its code points; `json.Marshal` and SHA-256 are
-- arguments.
use mlx_mesh.Base.{ℕ, Bool, Option, none, some, List, [], ◌∷◌, ◌++◌, String, str_eq, if◌then◌else◌}

mutual
  pub data Json : Type 0 where
    text : String → Json
    arr : Items → Json
    obj : Fields → Json
    -- Numbers, Booleans and null, as they are written.
    atom : String → Json

  pub data Items : Type 0 where
    nil : Items
    cons : Json → Items → Items

  pub data Fields : Type 0 where
    end : Fields
    field : String → Json → Fields → Fields

-- `m[key]`
unfoldable pub get : String → Fields → Option Json
get key end = none
get key (field k v fs) = if str_eq k key then some v else get key fs

-- `v.(string)`, `v.(map[string]any)`, and the first item of `v.([]any)`.
unfoldable pub as_text : Option Json → Option String
as_text (some (text s)) = some s
as_text _ = none

unfoldable pub as_fields : Option Json → Fields
as_fields (some (obj fs)) = fs
as_fields _ = end

unfoldable pub first_item : Option Json → Option Json
first_item (some (arr (cons v vs))) = some v
first_item _ = none

-- `result["choices"][0]["message"]["content"]`, where each part has its type.
unfoldable pub content_of : Fields → Option String
content_of result =
    as_text
      (get "content" (as_fields (get "message" (as_fields (first_item (get "choices" result))))))

-- `json.Marshal` of a key and of what is not a map, and the order of `sort.Strings`.
pub record Codec : Type 0 where
  pub marshal_key : String → List ℕ
  pub marshal : Json → Option (List ℕ)
  pub before : String → String → Bool
  pub digest : List ℕ → String

module _ (codec : Codec) where
  open codec use {marshal_key, marshal, before, digest}

  unfoldable pub insert_key : String × List ℕ → List (String × List ℕ) → List (String × List ℕ)
  insert_key e [] = e ∷ []
  insert_key e (f ∷ fs) = if before f.0 e.0 then f ∷ insert_key e fs else e ∷ f ∷ fs

  -- The entries between the braces, with a comma between each two.
  unfoldable pub join_entries : List (String × List ℕ) → List ℕ
  join_entries [] = []
  join_entries (e ∷ []) = marshal_key e.0 ++ (58 ∷ e.1)
  join_entries (e ∷ f ∷ fs) = marshal_key e.0 ++ (58 ∷ (e.1 ++ (44 ∷ join_entries (f ∷ fs))))

  braces : Option (List (String × List ℕ)) → Option (List ℕ)
  braces none = none
  braces (some es) = some (123 ∷ (join_entries es ++ (125 ∷ [])))

  with_entry :
      String → Option (List ℕ) → Option (List (String × List ℕ)) → Option (List (String × List ℕ))
  with_entry key none es = none
  with_entry key (some v) none = none
  with_entry key (some v) (some es) = some (insert_key (key, v) es)

  -- The entries in the order of their keys; none if one of them does not marshal.
  unfoldable mutual
    unfolding braces with_entry

    pub canonical_entries : Fields → Option (List (String × List ℕ))
    canonical_entries end = some []
    canonical_entries (field k v fs) = with_entry k (canonical_value v) (canonical_entries fs)

    pub canonical_value : Json → Option (List ℕ)
    canonical_value (obj fs) = braces (canonical_entries fs)
    canonical_value (text s) = marshal (text s)
    canonical_value (arr vs) = marshal (arr vs)
    canonical_value (atom s) = marshal (atom s)

  unfoldable pub canonical_json : Fields → Option (List ℕ)
  unfolding braces
  canonical_json fs = braces (canonical_entries fs)

  unfoldable pub compute_output_checksum : Fields → Option String
  compute_output_checksum fs = elim (canonical_json fs) [ none ↦ none | some b ↦ some (digest b) ]
