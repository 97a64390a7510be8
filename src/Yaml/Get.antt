-- ===== src/Yaml/Get.antt =====
-- What a field holds, as an independent description of pkg/utils/yaml.go's Set.
use delorean.Base.{
  ℕ, zero, suc, List, [], ◌∷◌, true, false, Bool-cases, ltb, Option, none, some, Text, Result,
  Result-cases, ok, err, panic, ◌≡◌, refl, ap, sym, ◌∙◌, inl, inr,
}
use delorean.Base.Int.{ℤ, pos, negsuc}
use delorean.Yaml.{
  Node, text, number, boolean, null, mapping, sequence, Items, no_items, item, Nodes, no_nodes,
  node, YamlError, is_key, length_nodes, with_mapping, with_sequence, with_item, with_items,
  with_node, with_nodes, checked_index, unstruct_yaml_set, set_items, set_nodes,
}

pub with_mapping-ok :
    (r : Result YamlError Items) (n : Node)
    → with_mapping r ≡ ok n
    → (items : Items) × (r ≡ ok items) × (mapping items ≡ n)
with_mapping-ok (ok items) n e = (items, refl, cc e)
with_mapping-ok (err x) n e = cc e
with_mapping-ok panic n e = cc e

pub with_sequence-ok :
    (r : Result YamlError Nodes) (n : Node)
    → with_sequence r ≡ ok n
    → (nodes : Nodes) × (r ≡ ok nodes) × (sequence nodes ≡ n)
with_sequence-ok (ok nodes) n e = (nodes, refl, cc e)
with_sequence-ok (err x) n e = cc e
with_sequence-ok panic n e = cc e

pub with_item-ok :
    (k : Option Text) (r : Result YamlError Node) (rest result : Items)
    → with_item k r rest ≡ ok result
    → (n : Node) × (r ≡ ok n) × (item k n rest ≡ result)
with_item-ok k (ok n) rest result e = (n, refl, cc e)
with_item-ok k (err x) rest result e = cc e
with_item-ok k panic rest result e = cc e

pub with_items-ok :
    (k : Option Text) (n : Node) (r : Result YamlError Items) (result : Items)
    → with_items k n r ≡ ok result
    → (rest : Items) × (r ≡ ok rest) × (item k n rest ≡ result)
with_items-ok k n (ok rest) result e = (rest, refl, cc e)
with_items-ok k n (err x) result e = cc e
with_items-ok k n panic result e = cc e

pub with_node-ok :
    (r : Result YamlError Node) (rest result : Nodes)
    → with_node r rest ≡ ok result
    → (n : Node) × (r ≡ ok n) × (node n rest ≡ result)
with_node-ok (ok n) rest result e = (n, refl, cc e)
with_node-ok (err x) rest result e = cc e
with_node-ok panic rest result e = cc e

pub with_nodes-ok :
    (n : Node) (r : Result YamlError Nodes) (result : Nodes)
    → with_nodes n r ≡ ok result
    → (rest : Nodes) × (r ≡ ok rest) × (node n rest ≡ result)
with_nodes-ok n (ok rest) result e = (rest, refl, cc e)
with_nodes-ok n (err x) result e = cc e
with_nodes-ok n panic result e = cc e

checked_index-ok :
    (key : Text) (length : ℕ) (o : Option ℤ) (i : ℕ)
    → checked_index key length o ≡ ok i
    → o ≡ some (pos i)
checked_index-ok key length none i e = cc e
checked_index-ok key length (some (negsuc j)) i e = cc e
checked_index-ok key length (some (pos j)) i e = elim (Bool-cases (ltb length j)) [
  | inl b ↦ cc (rw b at e)
  | inr b ↦ let same : j ≡ i = cc (rw b at e) in ap (λ n. some (pos n)) same
]

module _ (parse_int : Text → Option ℤ) where
  unfoldable mutual
    -- The field of a path, if it is there.
    pub get_node : Node → Text → List Text → Option Node
    get_node (mapping items) key path = get_items items key path
    get_node (sequence nodes) key path = elim (parse_int key) [
      | some (pos i) ↦ get_nodes nodes i path
      | _ ↦ none
    ]
    get_node _ key path = none

    pub get_items : Items → Text → List Text → Option Node
    get_items no_items key path = none
    get_items (item k n rest) key [] = elim (is_key k key) [
      | true ↦ some n
      | false ↦ get_items rest key []
    ]
    get_items (item k n rest) key (next ∷ path) = elim (is_key k key) [
      | true ↦ get_node n next path
      | false ↦ get_items rest key (next ∷ path)
    ]

    pub get_nodes : Nodes → ℕ → List Text → Option Node
    get_nodes no_nodes i path = none
    get_nodes (node n rest) zero [] = some n
    get_nodes (node n rest) zero (next ∷ path) = get_node n next path
    get_nodes (node n rest) (suc i) path = get_nodes rest i path

  pub at_index :
      (nodes : Nodes) (key : Text) (path : List Text) (i : ℕ)
      → parse_int key ≡ some (pos i)
      → get_node (sequence nodes) key path ≡ get_nodes nodes i path
  unfolding get_node
  at_index nodes key path i e = rw (e, get_node) refl

  -- A sequence that has been set was set at an index.
  pub sequence-ok :
      (nodes : Nodes) (key : Text) (path : List Text) (value result : Node)
      → unstruct_yaml_set parse_int (sequence nodes) key path value ≡ ok result
      → (i : ℕ) × (new : Nodes) × (parse_int key ≡ some (pos i))
        × (set_nodes parse_int nodes i path value ≡ ok new)
        × (sequence new ≡ result)
  unfolding unstruct_yaml_set
  sequence-ok nodes key path value result e =
      elim (Result-cases (checked_index key (length_nodes nodes) (parse_int key))) [
        | inl q ↦ cc (rw (q, unstruct_yaml_set) at e)
        | inr (inr (x, q)) ↦ cc (rw (q, unstruct_yaml_set) at e)
        | inr (inl (i, q)) ↦
            let (new, p, same) =
              with_sequence-ok (set_nodes parse_int nodes i path value) result
                (rw (q, unstruct_yaml_set) at e) in
            (i, new, checked_index-ok key (length_nodes nodes) (parse_int key) i q, p, same)
      ]

  mutual
    unfolding unstruct_yaml_set set_items set_nodes get_node get_items get_nodes

    pub get-set_node :
        (n : Node) (key : Text) (path : List Text) (value result : Node)
        → unstruct_yaml_set parse_int n key path value ≡ ok result
        → get_node result key path ≡ some value
    get-set_node (text s) key path value result e = cc e
    get-set_node (number i) key path value result e = cc e
    get-set_node (boolean b) key path value result e = cc e
    get-set_node null key path value result e = cc e
    get-set_node (mapping items) key path value result e =
        let (new, p, same) = with_mapping-ok (set_items parse_int items key path value) result e in
        ap (λ r. get_node r key path) (sym same) ∙ get-set_items items key path value new p
    get-set_node (sequence nodes) key path value result e =
        let (i, new, at, p, same) = sequence-ok nodes key path value result e in
        ap (λ r. get_node r key path) (sym same)
        ∙ at_index new key path i at
        ∙ get-set_nodes nodes i path value new p

    get-set_items :
        (items : Items) (key : Text) (path : List Text) (value : Node) (result : Items)
        → set_items parse_int items key path value ≡ ok result
        → get_items result key path ≡ some value
    get-set_items no_items key path value result e = cc e
    get-set_items (item k n rest) key [] value result e = elim (Bool-cases (is_key k key)) [
      | inl q ↦
          let same : item k value rest ≡ result = cc (rw (q, set_items) at e) in
          ap (λ r. get_items r key []) (sym same) ∙ rw (q, get_items) refl
      | inr q ↦
          let (new, p, same) =
            with_items-ok k n (set_items parse_int rest key [] value) result
              (rw (q, set_items) at e) in
          ap (λ r. get_items r key []) (sym same)
          ∙ rw (q, get_items) (get-set_items rest key [] value new p)
    ]
    get-set_items (item k n rest) key (next ∷ path) value result e =
        elim (Bool-cases (is_key k key)) [
          | inl q ↦
              let (new, p, same) =
                with_item-ok k (unstruct_yaml_set parse_int n next path value) rest result
                  (rw (q, set_items) at e) in
              ap (λ r. get_items r key (next ∷ path)) (sym same)
              ∙ rw (q, get_items) (get-set_node n next path value new p)
          | inr q ↦
              let (new, p, same) =
                with_items-ok k n (set_items parse_int rest key (next ∷ path) value) result
                  (rw (q, set_items) at e) in
              ap (λ r. get_items r key (next ∷ path)) (sym same)
              ∙ rw (q, get_items) (get-set_items rest key (next ∷ path) value new p)
        ]

    get-set_nodes :
        (nodes : Nodes) (i : ℕ) (path : List Text) (value : Node) (result : Nodes)
        → set_nodes parse_int nodes i path value ≡ ok result
        → get_nodes result i path ≡ some value
    get-set_nodes no_nodes i path value result e = cc e
    get-set_nodes (node n rest) zero [] value result e =
        let same : node value rest ≡ result = cc e in ap (λ r. get_nodes r zero []) (sym same)
    get-set_nodes (node n rest) zero (next ∷ path) value result e =
        let (new, p, same) =
          with_node-ok (unstruct_yaml_set parse_int n next path value) rest result e in
        ap (λ r. get_nodes r zero (next ∷ path)) (sym same) ∙ get-set_node n next path value new p
    get-set_nodes (node n rest) (suc i) path value result e =
        let (new, p, same) = with_nodes-ok n (set_nodes parse_int rest i path value) result e in
        ap (λ r. get_nodes r (suc i) path) (sym same) ∙ get-set_nodes rest i path value new p
