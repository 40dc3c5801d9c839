-- ===== src/Gcsfake.antt =====
-- gcpapi/storage/storagetest/gcsfake.go: a fake storage client. Buckets and objects are shared by
-- pointers, so they stand on heaps, and a pointer is a reference into one. A context is the error
-- that it has by now.
pub mod Writing
pub mod Listing
pub mod Scenarios
use gcp_emulator_pool.Common.{
  ℕ, zero, suc, ◌-◌, ◌+◌, Bool, true, false, Option, none, some, List, [], ◌∷◌, ◌++◌, if◌then◌else◌,
  ite, ltb, leb, not, ◌==◌, Str, str_discrete, has_prefix, lookup, insert, update, length,
  get_elem?, take, drop,
}

-- `storage.ObjectAttrs`, as far as it is used.
pub record ObjectAttrs : Type 0 where
  pub name : Str
  pub dir_prefix : Str

-- `Data` is the part of the buffer that is not read yet.
pub record ObjectHandle : Type 0 where
  pub name : Str
  pub bucket : ℕ
  pub contents : Str
  pub writes_must_fail : Bool
  pub closes_must_fail : Bool

-- `has_objs` says that the map `Objs` is not nil.
pub record BucketHandle : Type 0 where
  pub obj_attrs : List ObjectAttrs
  pub objs : List (Str × ℕ)
  pub has_objs : Bool
  pub writes_must_fail : Bool
  pub closes_must_fail : Bool

pub record Store : Type 0 where
  pub objects : ℕ → ObjectHandle
  pub next_object : ℕ
  pub buckets : ℕ → BucketHandle
  pub next_bucket : ℕ

-- The buckets of a `GCSClient`.
abbrev pub GcsClient : Type 0
GcsClient = List (Str × ℕ)

-- `AddTestBucket`.
unfoldable pub add_test_bucket : Str → ℕ → GcsClient → GcsClient
add_test_bucket name bh c = insert str_discrete name bh c

-- `Bucket`; `none` is the nil pointer.
unfoldable pub bucket_named : Str → GcsClient → Option ℕ
bucket_named name c = lookup str_discrete name c

-- `NewBucketHandle`.
unfoldable pub new_bucket_handle : Store → ℕ × Store
new_bucket_handle s = (
  s.next_bucket,
  record s {
    buckets = update s.buckets s.next_bucket (record {
      obj_attrs = [];
      objs = [];
      has_objs = true;
      writes_must_fail = false;
      closes_must_fail = false;
    });
    next_bucket = suc s.next_bucket;
  },
)

-- The new handle of `Object`. The bucket does not have it until it is written to.
abbrev pub fresh_object : Str → ℕ → BucketHandle → ObjectHandle
fresh_object name b bh = record {
  name = name;
  bucket = b;
  contents = [];
  writes_must_fail = bh.writes_must_fail;
  closes_must_fail = bh.closes_must_fail;
}

-- `Object` of the bucket at `b`.
unfoldable pub object_named : Str → ℕ → Store → ℕ × Store
object_named name b s = elim (lookup str_discrete name (s.buckets b).objs) [
  | some o ↦ (o, s)
  | none ↦ (
    s.next_object,
    record s {
      objects = update s.objects s.next_object (fresh_object name b (s.buckets b));
      next_object = suc s.next_object;
    },
  )
]

-- `fakeWriter`.
pub record FakeWriter : Type 0 where
  pub object : ℕ
  pub must_fail : Bool
  pub close_must_fail : Bool

-- `NewWriter`.
unfoldable pub new_writer : ℕ → Store → FakeWriter
new_writer o s = record {
  object = o;
  must_fail = (s.objects o).writes_must_fail;
  close_must_fail = (s.objects o).closes_must_fail;
}

-- What `Write` returns: the number of bytes, the error, or a panic.
pub data Written : Type 0 where
  wrote : ℕ → Written
  refused panicked : Written

-- `Write`. It panics if the map of the bucket is nil.
unfoldable pub write : FakeWriter → Str → Store → Written × Store
write w p s =
    let o = s.objects w.object in
    let bh = s.buckets o.bucket in
    if w.must_fail
    then (refused, s)
    else if bh.has_objs
    then (
      wrote (length p),
      record s {
        buckets =
            update s.buckets o.bucket
              (record bh { objs = insert str_discrete o.name w.object bh.objs });
        objects = update s.objects w.object (record o { contents = o.contents ++ p });
      },
    )
    else (panicked, s)

-- `Close` of a writer: whether it succeeds.
unfoldable pub close_writer : FakeWriter → Bool
close_writer w = not w.close_must_fail

-- What `Read` into `n` bytes returns: the bytes, or `none` for the end of file.
abbrev pub read_bytes : ℕ → Str → Option Str
read_bytes zero [] = some []
read_bytes (suc n) [] = none
read_bytes n (c ∷ unread) = some (take n (c ∷ unread))

-- `Read` of a reader of the object at `o`.
unfoldable pub read : ℕ → ℕ → Store → Option Str × Store
read n o s =
    let unread = (s.objects o).contents in
    (
      read_bytes n unread,
      record s { objects = update s.objects o (record (s.objects o) { contents = drop n unread }) },
    )

-- `storage.Query`, as far as it is used.
pub record Query : Type 0 where
  pub name_prefix : Str
  pub delimiter : Str

unfoldable pub has_byte : ℕ → Str → Bool
has_byte c [] = false
has_byte c (b ∷ s) = if b == c then true else has_byte c s

unfoldable pub trim_left : Str → Str → Str
trim_left cutset [] = []
trim_left cutset (c ∷ s) = if has_byte c cutset then trim_left cutset s else c ∷ s

unfoldable pub trim_right : Str → Str → Str
trim_right cutset [] = []
trim_right cutset (c ∷ s) = elim (trim_right cutset s) [
  | [] ↦ if has_byte c cutset then [] else c ∷ []
  | (d ∷ t) ↦ c ∷ d ∷ t
]

-- `strings.Trim`, for bytes of ASCII.
unfoldable pub trim : Str → Str → Str
unfolding trim_left trim_right has_byte
trim s cutset = trim_right cutset (trim_left cutset s)

-- `strings.Split` behind the part that is read: `skip` bytes belong to a separator.
unfoldable pub split_from : Str → ℕ → Str → Str → List Str
split_from sep skip part [] = part ∷ []
split_from sep (suc n) part (c ∷ s) = split_from sep n part s
split_from sep zero part (c ∷ s) =
    let cut = split_from sep (length sep - 1) [] s in
    let same = split_from sep 0 (part ++ c ∷ []) s in
    if has_prefix (c ∷ s) sep then part ∷ cut else same

-- `strings.Split` at a separator that is not empty.
unfoldable pub split : Str → Str → List Str
unfolding split_from
split s sep = split_from sep 0 [] s

-- The parts of a name behind the prefix.
unfoldable pub parts_of : Query → Str → List Str
unfolding split trim
parts_of q name = split (trim (drop (length q.name_prefix) name) q.delimiter) q.delimiter

abbrev pub dir_attrs : Query → Str → ObjectAttrs
dir_attrs q dir = record {
  name = [];
  dir_prefix = trim q.name_prefix q.delimiter ++ q.delimiter ++ dir;
}

-- The loop of `Objects`, with the directory that was listed last.
unfoldable pub list_objects : Query → Str → List ObjectAttrs → List ObjectAttrs
unfolding parts_of trim
list_objects q dir [] = []
list_objects q dir (a ∷ attrs) =
    let rest = list_objects q dir attrs in
    if has_prefix a.name q.name_prefix
    then ite (str_discrete q.delimiter []) (a ∷ rest) (elim (parts_of q a.name) [
      | [] ↦ a ∷ rest
      | (p ∷ []) ↦ a ∷ rest
      | (p ∷ p' ∷ ps) ↦ ite (str_discrete dir p) rest (dir_attrs q p ∷ list_objects q p attrs)
    ])
    else rest

-- `objIt`.
pub record ObjIt : Type 0 where
  pub objects : List ObjectAttrs
  pub next : ℕ

-- `Objects` of the bucket at `b`.
unfoldable pub objects_of : Query → ℕ → Store → ObjIt
unfolding list_objects
objects_of q b s = record { objects = list_objects q [] (s.buckets b).obj_attrs; next = 0 }

-- What `Next` returns: the error of the context, `iterator.Done`, or an object.
pub data Step : Type 0 where
  context_error : Step
  iterator_done : Step
  item : ObjectAttrs → Step

-- `Next`; `failed` says that the context has an error.
unfoldable pub next_object : Bool → ObjIt → Step × ObjIt
next_object failed it =
    if failed then (context_error, it) else elim (get_elem? it.objects it.next) [
      | none ↦ (iterator_done, it)
      | some a ↦ (item a, record it { next = suc it.next })
    ]
