-- ===== src/Yaml/Examples.antt =====
-- A file with a mapping in a sequence.
use delorean.Base.{
  List, [], ◌∷◌, Option, none, some, Text, codes, text_eq, split, if◌then◌else◌, ok, err, panic,
  ◌≡◌, refl,
}
use delorean.Base.Int.{ℤ, pos}
use delorean.Yaml.{
  Node, text, mapping, sequence, no_items, item, no_nodes, node, unsupported, no_key, null,
  unstruct_yaml_set, set_yaml_path,
}
use delorean.Yaml.Get.{get_node}
use delorean.Yaml.Apart.{IsApart}
use delorean.Yaml.Frame.{unstruct_yaml_set-get}

abbrev parse_int : Text → Option ℤ
parse_int s =
    if text_eq s (codes "0")
    then some (pos 0)
    else if text_eq s (codes "1")
    then some (pos 1)
    else none

abbrev file : Node → Node
file name = mapping (
    item (some (codes "steps"))
      (sequence (node (mapping (item (some (codes "name")) name no_items)) no_nodes)) no_items)

sets :
    unstruct_yaml_set parse_int
      (file (text (codes "a")))
      (codes "steps")
      (codes "0" ∷ codes "name" ∷ [])
      (text (codes "b"))
    ≡ ok (file (text (codes "b")))
unfolding unstruct_yaml_set text_eq
sets = refl

-- The index after the last is not caught.
one_too_far :
    unstruct_yaml_set parse_int (file null) (codes "steps") (codes "1" ∷ []) (text []) ≡ panic
unfolding unstruct_yaml_set text_eq
one_too_far = refl

refuses_null : set_yaml_path parse_int no_items (codes "steps") null ≡ err unsupported
unfolding set_yaml_path
refuses_null = refl

missing :
    set_yaml_path parse_int no_items (codes "promotion.name") (text [])
    ≡ err (no_key (codes "promotion"))
unfolding set_yaml_path unstruct_yaml_set split
missing = refl

unstruct_yaml_set-get_example :
    (get_node parse_int (file (text (codes "b"))) (codes "steps") (codes "0" ∷ codes "name" ∷ [])
      ≡ some (text (codes "b")))
    × ((other : Text) (away : List Text)
        → IsApart parse_int (codes "steps") (codes "0" ∷ codes "name" ∷ []) other away
        → get_node parse_int (file (text (codes "b"))) other away
          ≡ get_node parse_int (file (text (codes "a"))) other away)
unstruct_yaml_set-get_example =
    unstruct_yaml_set-get parse_int (file (text (codes "a"))) (codes "steps")
      (codes "0" ∷ codes "name" ∷ []) (text (codes "b")) (file (text (codes "b"))) sets
