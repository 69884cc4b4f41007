-- ===== src/Kube/Document/Laws.antt =====
-- Laws of mappings and sequences: reading behind a write, and finding an entry behind an update.
use tunstrap.Common.{String, ◌≡◌, refl, arith, if◌then◌else◌, ◌=t=◌, eq_iff}
use tunstrap.Kube.Document.{
  Value, Items, Fields, null, scalar, text, seq, mapping, nil, item, end, field, get, put, pop,
  or_empty, items_of, fields_of, find_in, find_named, update_inner, update_list,
}

pub get-put :
    (k j : String) (v : Value) (f : Fields) → get j (put k v f) ≡ (if k =t= j then v else get j f)
unfolding get put
get-put k j v end = refl
get-put k j v (field i w f) = ground (arith, eq_iff k j, eq_iff i k, eq_iff i j, get-put k j v f)

pub get-pop : (k j : String) (f : Fields) → get j (pop k f) ≡ (if k =t= j then null else get j f)
unfolding get pop
get-pop k j end = ground arith
get-pop k j (field i w f) = ground (arith, eq_iff i k, eq_iff i j, eq_iff k j, get-pop k j f)

pub find_named-or_empty :
    (v : Value) (name : String) → find_named (or_empty v) name ≡ find_named v name
unfolding find_named or_empty find_in
find_named-or_empty null name = refl
find_named-or_empty (scalar b s) name = ground arith
find_named-or_empty (text s) name = ground arith
find_named-or_empty (seq nil) name = refl
find_named-or_empty (seq (item v vs)) name = refl
find_named-or_empty (mapping end) name = refl
find_named-or_empty (mapping (field k v f)) name = refl

pub find_named-items_of :
    (v : Value) (name : String) → find_named (seq (items_of v)) name ≡ find_named v name
unfolding find_named find_in
find_named-items_of (seq vs) name = refl
find_named-items_of null name = refl
find_named-items_of _ name = refl

-- Finding reads the entries alone.
pub find_named-eq : (v : Value) (name : String) → find_named v name ≡ find_in (items_of v) name
unfolding find_named find_in
find_named-eq (seq vs) name = refl
find_named-eq null name = refl
find_named-eq _ name = refl

pub get-update_list :
    (k j : String) (change : Items → Items) (f : Fields)
    → get j (update_list k change f)
      ≡ (if k =t= j then seq (change (items_of (get k f))) else get j f)
unfolding update_list
get-update_list k j change f = get-put k j (seq (change (items_of (get k f)))) f

pub get-update_inner :
    (k j : String) (change : Fields → Fields) (f : Fields)
    → get j (update_inner k change f)
      ≡ (if k =t= j then mapping (change (fields_of (get k f))) else get j f)
unfolding update_inner
get-update_inner k j change f = get-put k j (mapping (change (fields_of (get k f)))) f

pub ruleset document_laws = (get-put, get-pop, get-update_list, get-update_inner)
