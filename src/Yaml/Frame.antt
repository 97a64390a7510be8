-- ===== src/Yaml/Frame.antt =====
-- What pkg/utils/yaml.go's Set leaves alone.
use delorean.Base.{
  Option-cases, ℕ, zero, suc, List, [], ◌∷◌, true, false, Bool-cases, Option, some, Text, ok, ◌≡◌,
  refl, ap, sym, ◌∙◌, inl, inr,
}
use delorean.Base.Int.{ℤ, pos, negsuc}
use delorean.Yaml.{
  Node, text, number, boolean, null, mapping, sequence, Items, no_items, item, Nodes, no_nodes,
  node, is_key, unstruct_yaml_set, set_items, set_nodes,
}
use delorean.Yaml.Get.{
  with_mapping-ok, with_item-ok, with_items-ok, with_node-ok, with_nodes-ok, get_node, get_items,
  get_nodes, at_index, sequence-ok, get-set_node,
}
use delorean.Yaml.Apart.{is_key-other, IsApart, IsApartAt, apart_at, apart_suc}

module _ (parse_int : Text → Option ℤ) where
  skip :
      (k : Option Text) (n : Node) (rest : Items) (other : Text) (away : List Text)
      → is_key k other ≡ false
      → get_items parse_int (item k n rest) other away ≡ get_items parse_int rest other away
  unfolding get_items
  skip k n rest other [] q = rw (q, get_items) refl
  skip k n rest other (further ∷ away) q = rw (q, get_items) refl

  missed :
      (k : Option Text) (n new : Node) (rest : Items) (other : Text) (away : List Text)
      → is_key k other ≡ false
      → get_items parse_int (item k new rest) other away
        ≡ get_items parse_int (item k n rest) other away
  missed k n new rest other away q = skip k new rest other away q ∙ sym (skip k n rest other away q)

  same_head :
      (k : Option Text) (n : Node) (rest new : Items) (other : Text) (away : List Text)
      → get_items parse_int new other away ≡ get_items parse_int rest other away
      → get_items parse_int (item k n new) other away
        ≡ get_items parse_int (item k n rest) other away
  unfolding get_items
  same_head k n rest new other [] h = elim (Bool-cases (is_key k other)) [
    | inl q ↦ rw (q, get_items) refl
    | inr q ↦ skip k n new other [] q ∙ h ∙ sym (skip k n rest other [] q)
  ]
  same_head k n rest new other (further ∷ away) h = elim (Bool-cases (is_key k other)) [
    | inl q ↦ rw (q, get_items) refl
    | inr q ↦
        skip k n new other (further ∷ away) q ∙ h ∙ sym (skip k n rest other (further ∷ away) q)
  ]

  found_key :
      (k : Option Text) (n : Node) (rest : Items) (other further : Text) (away : List Text)
      → is_key k other ≡ true
      → get_items parse_int (item k n rest) other (further ∷ away)
        ≡ get_node parse_int n further away
  unfolding get_items
  found_key k n rest other further away q = rw (q, get_items) refl

  -- A path through an item whose value has changed.
  apart_item :
      (k : Option Text) (n new : Node) (rest : Items) (key next : Text) (path : List Text)
      (other : Text) (away : List Text)
      → is_key k key ≡ true
      → ((further : Text) (later : List Text)
          → IsApart parse_int next path further later
          → get_node parse_int new further later ≡ get_node parse_int n further later)
      → IsApart parse_int key (next ∷ path) other away
      → get_items parse_int (item k new rest) other away
        ≡ get_items parse_int (item k n rest) other away
  apart_item k n new rest key next path other [] q f h =
      missed k n new rest other [] (is_key-other k key other q h.0)
  apart_item k n new rest key next path other (further ∷ away) q f (inl h) =
      missed k n new rest other (further ∷ away) (is_key-other k key other q h.0)
  apart_item k n new rest key next path other (further ∷ away) q f (inr (e, h)) =
      let found = ap (is_key k) (sym e) ∙ q in
      found_key k new rest other further away found
      ∙ f further away h
      ∙ sym (found_key k n rest other further away found)

  same_elsewhere :
      (nodes new : Nodes) (other : Text) (away : List Text)
      → ((j : ℕ)
          → parse_int other ≡ some (pos j)
          → get_nodes parse_int new j away ≡ get_nodes parse_int nodes j away)
      → get_node parse_int (sequence new) other away
        ≡ get_node parse_int (sequence nodes) other away
  unfolding get_node
  same_elsewhere nodes new other away h = elim (Option-cases (parse_int other)) [
    | inl q ↦ rw (q, get_node) refl
    | inr (negsuc j, q) ↦ rw (q, get_node) refl
    | inr (pos j, q) ↦
        at_index parse_int new other away j q
        ∙ h j q
        ∙ sym (at_index parse_int nodes other away j q)
  ]

  mutual
    unfolding unstruct_yaml_set set_items set_nodes get_node get_items get_nodes

    frame_node :
        (n : Node) (key : Text) (path : List Text) (value result : Node) (other : Text)
        (away : List Text)
        → unstruct_yaml_set parse_int n key path value ≡ ok result
        → IsApart parse_int key path other away
        → get_node parse_int result other away ≡ get_node parse_int n other away
    frame_node (text s) key path value result other away e h = cc e
    frame_node (number i) key path value result other away e h = cc e
    frame_node (boolean b) key path value result other away e h = cc e
    frame_node null key path value result other away e h = cc e
    frame_node (mapping items) key path value result other away e h =
        let (new, p, same) = with_mapping-ok (set_items parse_int items key path value) result e in
        ap (λ r. get_node parse_int r other away) (sym same)
        ∙ frame_items items key path value new other away p h
    frame_node (sequence nodes) key path value result other away e h =
        let (i, new, at, p, same) = sequence-ok parse_int nodes key path value result e in
        ap (λ r. get_node parse_int r other away) (sym same)
        ∙ same_elsewhere nodes new other away (λ j q.
          frame_nodes nodes i path value new j away p
            (apart_at parse_int key path other away i j at q h))

    frame_items :
        (items : Items) (key : Text) (path : List Text) (value : Node) (result : Items)
        (other : Text) (away : List Text)
        → set_items parse_int items key path value ≡ ok result
        → IsApart parse_int key path other away
        → get_items parse_int result other away ≡ get_items parse_int items other away
    frame_items no_items key path value result other away e h = cc e
    frame_items (item k n rest) key [] value result other away e h =
        elim (Bool-cases (is_key k key)) [
          | inl q ↦
              let same : item k value rest ≡ result = cc (rw (q, set_items) at e) in
              ap (λ r. get_items parse_int r other away) (sym same)
              ∙ missed k n value rest other away (is_key-other k key other q h.0)
          | inr q ↦
              let (new, p, same) =
                with_items-ok k n (set_items parse_int rest key [] value) result
                  (rw (q, set_items) at e) in
              ap (λ r. get_items parse_int r other away) (sym same)
              ∙ same_head k n rest new other away (frame_items rest key [] value new other away p h)
        ]
    frame_items (item k n rest) key (next ∷ path) value result other away e h =
        elim (Bool-cases (is_key k key)) [
          | inl q ↦
              let (new, p, same) =
                with_item-ok k (unstruct_yaml_set parse_int n next path value) rest result
                  (rw (q, set_items) at e) in
              ap (λ r. get_items parse_int r other away) (sym same)
              ∙ apart_item k n new rest key next path other away q
                  (λ further later. frame_node n next path value new further later p) h
          | inr q ↦
              let (new, p, same) =
                with_items-ok k n (set_items parse_int rest key (next ∷ path) value) result
                  (rw (q, set_items) at e) in
              ap (λ r. get_items parse_int r other away) (sym same)
              ∙ same_head k n rest new other away
                  (frame_items rest key (next ∷ path) value new other away p h)
        ]

    frame_nodes :
        (nodes : Nodes) (i : ℕ) (path : List Text) (value : Node) (result : Nodes) (j : ℕ)
        (away : List Text)
        → set_nodes parse_int nodes i path value ≡ ok result
        → IsApartAt parse_int i path j away
        → get_nodes parse_int result j away ≡ get_nodes parse_int nodes j away
    frame_nodes no_nodes i path value result j away e h = cc e
    frame_nodes (node n rest) zero [] value result zero away e h = absurd (h refl)
    frame_nodes (node n rest) zero [] value result (suc j) away e h =
        let same : node value rest ≡ result = cc e in
        ap (λ r. get_nodes parse_int r (suc j) away) (sym same)
    frame_nodes (node n rest) zero (next ∷ path) value result zero [] e h = absurd (h refl)
    frame_nodes (node n rest) zero (next ∷ path) value result zero (further ∷ away) e (inl h) =
        absurd (h refl)
    frame_nodes (node n rest) zero (next ∷ path) value result zero (further ∷ away) e (inr (_, h)) =
        let (new, p, same) =
          with_node-ok (unstruct_yaml_set parse_int n next path value) rest result e in
        ap (λ r. get_nodes parse_int r zero (further ∷ away)) (sym same)
        ∙ frame_node n next path value new further away p h
    frame_nodes (node n rest) zero (next ∷ path) value result (suc j) away e h =
        let (new, p, same) =
          with_node-ok (unstruct_yaml_set parse_int n next path value) rest result e in
        ap (λ r. get_nodes parse_int r (suc j) away) (sym same)
    frame_nodes (node n rest) (suc i) path value result zero [] e h =
        let (new, p, same) = with_nodes-ok n (set_nodes parse_int rest i path value) result e in
        ap (λ r. get_nodes parse_int r zero []) (sym same)
    frame_nodes (node n rest) (suc i) path value result zero (further ∷ away) e h =
        let (new, p, same) = with_nodes-ok n (set_nodes parse_int rest i path value) result e in
        ap (λ r. get_nodes parse_int r zero (further ∷ away)) (sym same)
    frame_nodes (node n rest) (suc i) path value result (suc j) away e h =
        let (new, p, same) = with_nodes-ok n (set_nodes parse_int rest i path value) result e in
        ap (λ r. get_nodes parse_int r (suc j) away) (sym same)
        ∙ frame_nodes rest i path value new j away p (apart_suc parse_int i path j away h)

  -- If a field is set, its path holds the value, and every path that parts from it, at a key that differs also as an
  -- index, holds what it held before.
  pub unstruct_yaml_set-get :
      (n : Node) (key : Text) (path : List Text) (value result : Node)
      → unstruct_yaml_set parse_int n key path value ≡ ok result
      → (get_node parse_int result key path ≡ some value)
        × ((other : Text) (away : List Text)
            → IsApart parse_int key path other away
            → get_node parse_int result other away ≡ get_node parse_int n other away)
  unstruct_yaml_set-get n key path value result e = (
    get-set_node parse_int n key path value result e,
    λ other away h. frame_node n key path value result other away e h,
  )
