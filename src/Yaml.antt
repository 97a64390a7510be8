-- ===== src/Yaml.antt =====
-- pkg/utils/yaml.go: one field of a YAML file is set, in place. The conversion of a key to an index is the
-- parameter `parse_int`; reading and writing of files are left out.
pub mod Get
pub mod Apart
pub mod Frame
mod Examples
use delorean.Base.{
  ℕ, zero, suc, List, [], ◌∷◌, Bool, true, false, ltb, Option, none, some, Text, text_eq, split,
  if◌then◌else◌, Result, ok, err, panic,
}
use delorean.Base.Int.{ℤ, pos, negsuc}

-- What a file holds: `Items` is a `yaml.MapSlice`, whose keys need not be strings, `Nodes` a slice.
mutual
  pub data Node : Type 0 where
    text : Text → Node
    number : ℤ → Node
    boolean : Bool → Node
    null : Node
    mapping : Items → Node
    sequence : Nodes → Node

  pub data Items : Type 0 where
    no_items : Items
    item : Option Text → Node → Items → Items

  pub data Nodes : Type 0 where
    no_nodes : Nodes
    node : Node → Nodes → Nodes

pub data YamlError : Type 0 where
  no_key : Text → YamlError
  no_index : Text → YamlError
  out_of_range : ℕ → YamlError
  unknown_type : YamlError
  unsupported : YamlError

-- `item.Key == key`
abbrev pub is_key : Option Text → Text → Bool
is_key none key = false
is_key (some k) key = text_eq k key

abbrev pub length_nodes : Nodes → ℕ
length_nodes no_nodes = 0
length_nodes (node n rest) = suc (length_nodes rest)

abbrev pub with_mapping : Result YamlError Items → Result YamlError Node
with_mapping (ok items) = ok (mapping items)
with_mapping (err e) = err e
with_mapping panic = panic

abbrev pub with_sequence : Result YamlError Nodes → Result YamlError Node
with_sequence (ok nodes) = ok (sequence nodes)
with_sequence (err e) = err e
with_sequence panic = panic

abbrev pub with_item : Option Text → Result YamlError Node → Items → Result YamlError Items
with_item k (ok n) rest = ok (item k n rest)
with_item k (err e) rest = err e
with_item k panic rest = panic

abbrev pub with_items : Option Text → Node → Result YamlError Items → Result YamlError Items
with_items k n (ok rest) = ok (item k n rest)
with_items k n (err e) = err e
with_items k n panic = panic

abbrev pub with_node : Result YamlError Node → Nodes → Result YamlError Nodes
with_node (ok n) rest = ok (node n rest)
with_node (err e) rest = err e
with_node panic rest = panic

abbrev pub with_nodes : Node → Result YamlError Nodes → Result YamlError Nodes
with_nodes n (ok rest) = ok (node n rest)
with_nodes n (err e) = err e
with_nodes n panic = panic

-- An index beyond the length is an error; the length itself and a negative index are not caught.
abbrev pub checked_index : Text → ℕ → Option ℤ → Result YamlError ℕ
checked_index key length none = err (no_index key)
checked_index key length (some (negsuc i)) = panic
checked_index key length (some (pos i)) = if ltb length i then err (out_of_range i) else ok i

module _ (parse_int : Text → Option ℤ) where
  unfoldable mutual
    -- `unstructYamlSet`: the path is its first key with the other keys.
    pub unstruct_yaml_set : Node → Text → List Text → Node → Result YamlError Node
    unstruct_yaml_set (mapping items) key path value = with_mapping (set_items items key path value)
    unstruct_yaml_set (sequence nodes) key path value =
        elim (checked_index key (length_nodes nodes) (parse_int key)) [
          | ok i ↦ with_sequence (set_nodes nodes i path value)
          | err e ↦ err e
          | panic ↦ panic
        ]
    unstruct_yaml_set _ key path value = err unknown_type

    -- The loop over the items: the first that has the key is set, or searched for the rest of the path.
    pub set_items : Items → Text → List Text → Node → Result YamlError Items
    set_items no_items key path value = err (no_key key)
    set_items (item k n rest) key [] value = elim (is_key k key) [
      | true ↦ ok (item k value rest)
      | false ↦ with_items k n (set_items rest key [] value)
    ]
    set_items (item k n rest) key (next ∷ path) value = elim (is_key k key) [
      | true ↦ with_item k (unstruct_yaml_set n next path value) rest
      | false ↦ with_items k n (set_items rest key (next ∷ path) value)
    ]

    -- The element at an index: out of range it panics.
    pub set_nodes : Nodes → ℕ → List Text → Node → Result YamlError Nodes
    set_nodes no_nodes i path value = panic
    set_nodes (node n rest) zero [] value = ok (node value rest)
    set_nodes (node n rest) zero (next ∷ path) value =
        with_node (unstruct_yaml_set n next path value) rest
    set_nodes (node n rest) (suc i) path value = with_nodes n (set_nodes rest i path value)

  -- `Set`: only numbers, Booleans and strings are accepted; the path has at least one key.
  abbrev set_path : Node → List Text → Node → Result YamlError Node
  set_path n [] value = panic
  set_path n (key ∷ path) value = unstruct_yaml_set n key path value

  abbrev is_supported : Node → Bool
  is_supported (text s) = true
  is_supported (number i) = true
  is_supported (boolean b) = true
  is_supported _ = false

  unfoldable pub set_yaml_path : Items → Text → Node → Result YamlError Node
  set_yaml_path slice path value =
      if is_supported value
      then set_path (mapping slice) (split path b'.') value
      else err unsupported
