-- ===== src/Semantic/Tests.antt =====
-- A schema, a state and a patch with an operation of each kind, and the theorems at them.
use maiden_lane.Base.{
  ℕ, true, false, List, [], ◌∷◌, ◌++◌, none, some, Text, codes, replicate, text_beq, ◌≡◌, ◌↔◌, refl,
  Result, ok, err,
}
use maiden_lane.Base.Int.{pos}
use maiden_lane.Base.Sorting.{insort, sort}
use maiden_lane.Base.Sorted.{find, remove, replace}
use maiden_lane.Base.Order.{compare_text}
use maiden_lane.Canonical.Encoder.{Bytes, decode_digest, write, string, tag, strip_prefix}
use maiden_lane.Canonical.Strings.{valid_utf8, big_endian, decode_hex, hex_digit, is_lower_case}
use maiden_lane.Semantic.Value.{
  string_value, int64_value, valid, valid_semantic_name, equal, encode_value, parses,
}
use maiden_lane.Semantic.Graph.{
  EntityRef, Relation, Entity, EntityDeclaration, RelationDeclaration, clone_entity, clone_fields,
  set_field, field, fields_in, entities_equal,
}
use maiden_lane.Semantic.Schema.{
  Schema, SchemaError, new_schema, encode_schema, check_fields, check_entity_kinds,
  check_relation_kinds,
}
use maiden_lane.Semantic.State.{
  State, StateError, new_state, sorted_state, new_entity, check_entities, check_relations,
  check_values, check_declared, check_required, validate_entity_ref, validate_entity_fields,
  encode_state,
}
use maiden_lane.Semantic.Patch.{
  Operation, insert_op, relate_op, update_op, unrelate_op, delete_op, Patch, PatchError, new_patch,
  normalized, validate_operation, validate_operation_against_schema, validate_operations,
  check_changes, check_declared_changes, encode_patch, rank, payload,
}
use maiden_lane.Semantic.Apply.{
  Graph, accepted, apply_patch, apply_operation, apply_operations, before_matches, write_changes,
  has_dangling, validate_link, graph_of,
}
use maiden_lane.Semantic.Undo.{undo_patch}
use maiden_lane.Semantic.Reversal.{IsReady}
use maiden_lane.Semantic.Observed.{Allowed, Leaves, apply_operation-Leaves}
use maiden_lane.Semantic.Equality.{entities_equal_iff}
use maiden_lane.Semantic.Consistent.{IsConsistent, new_state-IsConsistent, consistent-IsProper}
use maiden_lane.Semantic.Acceptance.{KeepsOrAccepts, apply_patch-keeps, receipt_for}
use maiden_lane.Semantic.RoundTrip.{undo-apply}

-- A hash for the tests: one digest string for everything.
abbrev test_hash : Bytes → Text
test_hash b = codes "sha256:" ++ replicate 64 b'a'

abbrev id_of : ℕ → Text
id_of d = codes "sha256:" ++ replicate 64 d

abbrev node : ℕ → EntityRef
node d = record { kind = codes "node"; id = id_of d }

abbrev edge : ℕ → ℕ → Relation
edge a b = record { kind = codes "edge"; from = node a; to = node b }

abbrev node_with : ℕ → Text → Entity
node_with d t = record { ref = node d; fields = (codes "name", string_value t) ∷ [] }

abbrev nodes : List EntityDeclaration
nodes =
    record {
      kind = codes "node";
      fields =
          record { name = codes "name"; kind = 1; required_at_construction = true }
          ∷ record { name = codes "size"; kind = 3; required_at_construction = false }
          ∷ [];
    }
    ∷ []

abbrev edges : List RelationDeclaration
edges = record { kind = codes "edge"; from_kind = codes "node"; to_kind = codes "node" } ∷ []

abbrev no_schema_yet : Schema
no_schema_yet = record { entities = []; relations = []; canonical = []; digest = [] }

abbrev schema_or : Result SchemaError Schema → Schema
schema_or (ok s) = s
schema_or (err e) = no_schema_yet

abbrev test_schema : Schema
test_schema = schema_or (new_schema test_hash nodes edges)

abbrev no_state : State
no_state = record {
  schema = no_schema_yet;
  lineage = [];
  entities = [];
  relations = [];
  canonical = [];
  digest = [];
}

abbrev state_or : Result StateError State → State
state_or (ok s) = s
state_or (err e) = no_state

abbrev some_nodes : List Entity
some_nodes = node_with b'2' (codes "b") ∷ node_with b'1' (codes "a") ∷ []

abbrev some_edges : List Relation
some_edges = edge b'2' b'1' ∷ []

abbrev before : State
before = state_or (new_state test_hash test_schema (id_of b'0') some_nodes some_edges)

before_made : new_state test_hash test_schema (id_of b'0') some_nodes some_edges ≡ ok before
unfolding new_state new_schema sort insort valid_semantic_name valid_utf8 compare_text text_beq
    write tag string big_endian decode_digest strip_prefix is_lower_case decode_hex hex_digit
    clone_entity clone_fields set_field validate_entity_fields field find remove check_entity_kinds
    check_fields check_relation_kinds encode_schema check_declared check_entities check_relations
    check_required encode_state sorted_state encode_value valid
before_made = refl

-- An operation of each kind.
abbrev some_operations : List Operation
some_operations =
    delete_op (node_with b'2' (codes "b"))
    ∷ unrelate_op (edge b'2' b'1')
    ∷ update_op (node b'1') (
        record { name = codes "size"; before = none; after = int64_value (pos 7) }
        ∷ record {
          name = codes "name";
          before = some (string_value (codes "a"));
          after = string_value (codes "c");
        }
        ∷ [])
    ∷ relate_op (edge b'3' b'1')
    ∷ insert_op (node_with b'3' (codes "new"))
    ∷ []

abbrev no_patch : Patch
no_patch = record { schema_digest = []; operations = []; canonical = []; digest = [] }

abbrev patch_or : Result PatchError Patch → Patch
patch_or (ok p) = p
patch_or (err e) = no_patch

abbrev test_patch : Patch
test_patch = patch_or (new_patch test_hash test_schema some_operations)

patch_made : new_patch test_hash test_schema some_operations ≡ ok test_patch
unfolding new_state new_schema sort insort valid_semantic_name valid_utf8 compare_text text_beq
    write tag string big_endian decode_digest strip_prefix is_lower_case decode_hex hex_digit
    clone_entity clone_fields set_field validate_entity_fields field find remove check_entity_kinds
    check_fields check_relation_kinds encode_schema check_declared check_entities check_relations
    check_required encode_state sorted_state encode_value valid new_patch normalized
    validate_operations validate_operation validate_operation_against_schema check_changes
    check_declared_changes new_entity validate_entity_ref check_values encode_patch rank payload
patch_made = refl

abbrev after : State
after = (apply_patch test_hash before test_patch).0.state

patch_accepted :
    apply_patch test_hash before test_patch
    ≡ accepted after (some (receipt_for before test_patch after))
unfolding new_state new_schema sort insort valid_semantic_name valid_utf8 compare_text text_beq
    write tag string big_endian decode_digest strip_prefix is_lower_case decode_hex hex_digit
    clone_entity clone_fields set_field validate_entity_fields field find remove check_entity_kinds
    check_fields check_relation_kinds encode_schema check_declared check_entities check_relations
    check_required encode_state sorted_state encode_value valid new_patch normalized
    validate_operations validate_operation validate_operation_against_schema check_changes
    check_declared_changes new_entity validate_entity_ref check_values encode_patch rank payload
    apply_patch apply_operation apply_operations before_matches write_changes has_dangling
    validate_link replace entities_equal fields_in equal
patch_accepted = refl

hash_decodes : (b : Bytes) → parses (decode_digest (test_hash b)) ≡ true
unfolding decode_digest strip_prefix is_lower_case decode_hex hex_digit
hash_decodes b = refl

undo-apply_example :
    undo_patch test_hash after test_patch (some (receipt_for before test_patch after))
    ≡ accepted before none
undo-apply_example =
    undo-apply test_hash hash_decodes test_schema (id_of b'0') some_nodes some_edges before
      before_made test_schema some_operations test_patch patch_made after
      (receipt_for before test_patch after) patch_accepted

new_state-IsConsistent_example : IsConsistent test_hash before
new_state-IsConsistent_example =
    new_state-IsConsistent test_hash test_schema (id_of b'0') some_nodes some_edges before
      before_made

apply_patch-keeps_example :
    KeepsOrAccepts test_hash before test_patch (apply_patch test_hash before test_patch)
apply_patch-keeps_example = apply_patch-keeps test_hash before test_patch

abbrev one_update : Operation
one_update = update_op (node b'1') (
    record {
      name = codes "name";
      before = some (string_value (codes "a"));
      after = string_value (codes "c");
    }
    ∷ record { name = codes "size"; before = none; after = int64_value (pos 7) }
    ∷ [])

one_update-IsReady : IsReady one_update
unfolding find text_beq
one_update-IsReady = (refl, (refl, tt))

apply_operation-Leaves_example :
    ((h : Graph)
      → apply_operation one_update (graph_of before) ≡ ok h
      → Allowed one_update (graph_of before) × Leaves one_update (graph_of before) h)
    × (Allowed one_update (graph_of before)
        → (h : Graph) × (apply_operation one_update (graph_of before) ≡ ok h))
apply_operation-Leaves_example =
    apply_operation-Leaves one_update (graph_of before)
      (consistent-IsProper test_hash before (
        new_state-IsConsistent test_hash test_schema (id_of b'0') some_nodes some_edges before
          before_made))
      one_update-IsReady

entities_equal_iff_example :
    (entities_equal (node_with b'1' (codes "a")) (node_with b'1' (codes "b")) ≡ true)
    ↔ (node_with b'1' (codes "a") ≡ node_with b'1' (codes "b"))
entities_equal_iff_example =
    entities_equal_iff (node_with b'1' (codes "a")) (node_with b'1' (codes "b")) (tt, tt) (tt, tt)
