-- ===== src/Dsfake/Keys.antt =====
-- gcpapi/datastore/dsfake/dsifake.go: `protoToKey`, `GetDSKeys`, and `WhyInvalidKey`, whose output is
-- the list of what it prints. `datastore.Key` is taken as far as these use it.
use gcp_emulator_pool.Common.{
  ℕ, zero, suc, ◌+◌, ◌≤◌, ◌≡◌, refl, sym, ap, ◌∙◌, arith, Bool, Option, none, some, List, [], ◌∷◌,
  ◌++◌, map, ite, if◌then◌else◌, ℤ, pos, ℤ-discrete, Str, bytes, str_discrete, update, update_self,
  update_ne, length, Option-cases, inl, inr, ◌⊎◌, ◌≢◌, ◌<◌,
}
use gcp_emulator_pool.Dsfake.{PathElement, PbKey, Entity, Objects, get_name, get_id, namespace_of}
use mathlib.Core.List.{append-nil, append_assoc}

-- A pointer to a `datastore.Key`: nil, or the namespace, kind, id, name and parent.
pub data KeyPtr : Type 0 where
  nil : KeyPtr
  key_at : Str → Str → ℤ → Str → KeyPtr → KeyPtr

-- The loop of `protoToKey`, from the key so far.
unfoldable pub key_from : Str → KeyPtr → List PathElement → KeyPtr
key_from namespace key [] = key
key_from namespace key (el ∷ path) =
    key_from namespace
      (key_at namespace el.kind (get_id el.id_or_name) (get_name el.id_or_name) key) path

-- `protoToKey`.
unfoldable pub proto_to_key : PbKey → KeyPtr
unfolding key_from
proto_to_key p = key_from (namespace_of p.namespace_id) nil p.path

-- The loop of `GetDSKeys`: the slice by index, and the next index.
unfoldable pub fill_keys : (Str → Option Entity) → Objects → (ℕ → KeyPtr) → ℕ → ℕ → KeyPtr
unfolding proto_to_key
fill_keys unmarshal [] keys i = keys
fill_keys unmarshal ((_, v) ∷ objs) keys i = elim (unmarshal v) [
  | none ↦ fill_keys unmarshal objs keys i
  | some e ↦ fill_keys unmarshal objs (update keys i (proto_to_key e.key)) (suc i)
]

abbrev pub slice_from {ℓ} : {A : Type ℓ} → (ℕ → A) → ℕ → ℕ → List A
slice_from f i zero = []
slice_from f i (suc n) = f i ∷ slice_from f (suc i) n

-- `GetDSKeys`.
unfoldable pub get_ds_keys : (Str → Option Entity) → Objects → List KeyPtr
unfolding fill_keys
get_ds_keys unmarshal objs = slice_from (fill_keys unmarshal objs (λ i. nil) 0) 0 (length objs)

-- The part of `WhyInvalidKey` that looks at the parent.
unfoldable pub why_invalid_parent : (KeyPtr → Bool) → Str → KeyPtr → List Str
why_invalid_parent incomplete namespace nil = []
why_invalid_parent incomplete namespace (key_at ns kind id name parent) =
    (if incomplete (key_at ns kind id name parent)
      then bytes "**key had incomplete parent" ∷ []
      else [])
    ++ ite (str_discrete ns namespace) [] (bytes "**key had different namespace from parent" ∷ [])

-- The loop of `WhyInvalidKey`.
unfoldable pub why_invalid_from : (KeyPtr → Bool) → KeyPtr → List Str
unfolding why_invalid_parent
why_invalid_from incomplete nil = []
why_invalid_from incomplete (key_at ns kind id name parent) =
    ite (str_discrete kind []) (bytes "**key had empty Kind" ∷ []) []
    ++ ite (str_discrete name []) []
        (ite (ℤ-discrete id (pos 0)) [] (bytes "**key had empty Name or ID = 0" ∷ []))
    ++ why_invalid_parent incomplete ns parent
    ++ why_invalid_from incomplete parent

-- `WhyInvalidKey`.
unfoldable pub why_invalid_key : (KeyPtr → Bool) → KeyPtr → List Str
unfolding why_invalid_from
why_invalid_key incomplete nil = bytes "**key was nil" ∷ []
why_invalid_key incomplete (key_at ns kind id name parent) =
    why_invalid_from incomplete (key_at ns kind id name parent)

-- The kind, id and name of an element.
abbrev pub fields_of : PathElement → Str × ℤ × Str
fields_of el = (el.kind, get_id el.id_or_name, get_name el.id_or_name)

-- The fields of a key and its parents, the root first.
abbrev pub path_of : KeyPtr → List (Str × ℤ × Str)
path_of nil = []
path_of (key_at ns kind id name parent) = path_of parent ++ (kind, id, name) ∷ []

path_of-key_from :
    (namespace : Str) (key : KeyPtr) (path : List PathElement)
    → path_of (key_from namespace key path) ≡ path_of key ++ map fields_of path
unfolding key_from
path_of-key_from namespace key [] = sym (append-nil (path_of key))
path_of-key_from namespace key (el ∷ path) =
    path_of-key_from namespace _ path
    ∙ append_assoc (path_of key) (fields_of el ∷ []) (map fields_of path)

-- Nothing of a path is lost in the key that is made of it: its kinds, ids and names can be read back,
-- the root first.
pub path_of-proto_to_key : (p : PbKey) → path_of (proto_to_key p) ≡ map fields_of p.path
unfolding proto_to_key
path_of-proto_to_key p = path_of-key_from (namespace_of p.namespace_id) nil p.path

-- The keys of the entities that decode.
abbrev pub decoded : (Str → Option Entity) → Objects → List KeyPtr
decoded unmarshal [] = []
decoded unmarshal ((_, v) ∷ objs) =
    let rest = decoded unmarshal objs in
    elim (unmarshal v) [ none ↦ rest | some e ↦ proto_to_key e.key ∷ rest ]

-- One nil for each entity that does not.
abbrev pub undecoded : (Str → Option Entity) → Objects → List KeyPtr
undecoded unmarshal [] = []
undecoded unmarshal ((_, v) ∷ objs) =
    let rest = undecoded unmarshal objs in elim (unmarshal v) [ none ↦ nil ∷ rest | some e ↦ rest ]

fill_keys_elsewhere :
    (unmarshal : Str → Option Entity) (objs : Objects) (keys : ℕ → KeyPtr) (i k : ℕ)
    → (k < i) ⊎ (i + length objs ≤ k)
    → fill_keys unmarshal objs keys i k ≡ keys k
unfolding fill_keys
fill_keys_elsewhere unmarshal [] keys i k away = refl
fill_keys_elsewhere unmarshal ((n, v) ∷ objs) keys i k away = elim (Option-cases (unmarshal v)) [
  | inl e ↦ rw (e, fill_keys) (fill_keys_elsewhere unmarshal objs keys i k (sooner away))
  | inr (ent, e) ↦
      rw (e, fill_keys, decoded, undecoded, slice_from)
        (fill_keys_elsewhere unmarshal objs (update keys i (proto_to_key ent.key)) (suc i) k
            (later away)
          ∙ update_ne keys i k (proto_to_key ent.key) (other away))
]
  where
    sooner : (k < i) ⊎ (i + suc (length objs) ≤ k) → (k < i) ⊎ (i + length objs ≤ k)
    sooner (inl lt) = inl lt
    sooner (inr le) = inr (omega arith)

    later : (k < i) ⊎ (i + suc (length objs) ≤ k) → (k < suc i) ⊎ (suc i + length objs ≤ k)
    later (inl lt) = inl (omega arith)
    later (inr le) = inr (omega arith)

    other : (k < i) ⊎ (i + suc (length objs) ≤ k) → i ≢ k
    other (inl lt) e = omega arith
    other (inr le) e = omega arith

slice_from_snoc :
    (f : ℕ → KeyPtr) (i n : ℕ) → slice_from f i (suc n) ≡ slice_from f i n ++ f (i + n) ∷ []
slice_from_snoc f i zero = ap (λ k. f k ∷ []) (omega arith)
slice_from_snoc f i (suc n) = ap (◌∷◌ (f i)) (
    slice_from_snoc f (suc i) n
    ∙ ap (λ k. slice_from f (suc i) n ++ f k ∷ [])
        (let e : suc i + n ≡ i + suc n = omega arith in e))

undecoded_snoc :
    (unmarshal : Str → Option Entity) (objs : Objects)
    → undecoded unmarshal objs ++ nil ∷ [] ≡ nil ∷ undecoded unmarshal objs
undecoded_snoc unmarshal [] = refl
undecoded_snoc unmarshal ((n, v) ∷ objs) = elim (Option-cases (unmarshal v)) [
  | inl e ↦ rw (e, ◌++◌, undecoded) (ap (◌∷◌ nil) (undecoded_snoc unmarshal objs))
  | inr (ent, e) ↦ rw (e, ◌++◌, undecoded) (undecoded_snoc unmarshal objs)
]

fill_keys_skips :
    (unmarshal : Str → Option Entity) (n v : Str) (objs : Objects) (keys : ℕ → KeyPtr) (i : ℕ)
    → unmarshal v ≡ none
    → fill_keys unmarshal ((n, v) ∷ objs) keys i ≡ fill_keys unmarshal objs keys i
unfolding fill_keys
fill_keys_skips unmarshal n v objs keys i e = rw (e, fill_keys) refl

fill_keys_writes :
    (unmarshal : Str → Option Entity) (n v : Str) (ent : Entity) (objs : Objects)
    (keys : ℕ → KeyPtr) (i : ℕ)
    → unmarshal v ≡ some ent
    → fill_keys unmarshal ((n, v) ∷ objs) keys i
      ≡ fill_keys unmarshal objs (update keys i (proto_to_key ent.key)) (suc i)
unfolding fill_keys
fill_keys_writes unmarshal n v ent objs keys i e = rw (e, fill_keys) refl

slice-fill_keys :
    (unmarshal : Str → Option Entity) (objs : Objects) (keys : ℕ → KeyPtr) (i : ℕ)
    → ((k : ℕ) → i ≤ k → keys k ≡ nil)
    → slice_from (fill_keys unmarshal objs keys i) i (length objs)
      ≡ decoded unmarshal objs ++ undecoded unmarshal objs
unfolding fill_keys
slice-fill_keys unmarshal [] keys i empty = refl
slice-fill_keys unmarshal ((n, v) ∷ objs) keys i empty = elim (Option-cases (unmarshal v)) [
  | inl e ↦
      let filled = fill_keys unmarshal objs keys i in
      ap (λ f. slice_from f i (suc (length objs))) (fill_keys_skips unmarshal n v objs keys i e)
      ∙ rw (e, decoded, undecoded)
          (slice_from_snoc filled i (length objs)
            ∙ ap (λ l. l ++ filled (i + length objs) ∷ [])
                (slice-fill_keys unmarshal objs keys i empty)
            ∙ ap (λ p. (decoded unmarshal objs ++ undecoded unmarshal objs) ++ p ∷ [])
                (fill_keys_elsewhere unmarshal objs keys i (i + length objs) (inr (omega arith))
                  ∙ empty (i + length objs) (omega arith))
            ∙ append_assoc (decoded unmarshal objs) (undecoded unmarshal objs) (nil ∷ [])
            ∙ ap (λ l. decoded unmarshal objs ++ l) (undecoded_snoc unmarshal objs))
  | inr (ent, e) ↦
      let key = proto_to_key ent.key in
      let next = update keys i key in
      ap (λ f. slice_from f i (suc (length objs)))
        (fill_keys_writes unmarshal n v ent objs keys i e)
      ∙ rw (e, decoded, undecoded)
          (ap (λ p. p ∷ slice_from (fill_keys unmarshal objs next (suc i)) (suc i) (length objs))
              (fill_keys_elsewhere unmarshal objs next (suc i) i (inl (omega arith))
                ∙ update_self keys i key)
            ∙ ap (◌∷◌ key) (
                slice-fill_keys unmarshal objs next (suc i)
                  λ k le. update_ne keys i k key (λ same. omega arith) ∙ empty k (omega arith)))
]

-- GetDSKeys lists the keys of the entities that decode, in the order of the map, and after them one
-- nil for each entity that does not decode.
pub get_ds_keys-decoded :
    (unmarshal : Str → Option Entity) (objs : Objects)
    → get_ds_keys unmarshal objs ≡ decoded unmarshal objs ++ undecoded unmarshal objs
unfolding get_ds_keys
get_ds_keys-decoded unmarshal objs = slice-fill_keys unmarshal objs (λ i. nil) 0 (λ k le. refl)
