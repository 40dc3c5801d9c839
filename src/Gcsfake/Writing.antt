-- ===== src/Gcsfake/Writing.antt =====
-- What is written to an object, and read from it (gcpapi/storage/storagetest/gcsfake.go).
use gcp_emulator_pool.Common.{
  ℕ, suc, ◌≡◌, refl, ap, ◌∙◌, true, false, none, some, [], ◌∷◌, ◌++◌, arith, Str, str_discrete,
  lookup, lookup-insert, update, update_self, if_pos, length, take_all, subst, drop, drop_all,
}
use gcp_emulator_pool.Gcsfake.{
  Store, FakeWriter, write, wrote, refused, read, read_bytes, read_bytes, new_writer, object_named,
  fresh_object,
}

write_done :
    (w : FakeWriter) (p : Str) (s : Store)
    → w.must_fail ≡ false
    → (s.buckets (s.objects w.object).bucket).has_objs ≡ true
    → ((write w p s).0 ≡ wrote (length p))
      × (((write w p s).1.objects w.object).contents ≡ (s.objects w.object).contents ++ p)
      × (lookup str_discrete
            (s.objects w.object).name
            ((write w p s).1.buckets (s.objects w.object).bucket).objs
          ≡ some w.object)
unfolding write
write_done w p s fine made =
    let o = s.objects w.object in
    rw (fine, made, write)
      (
        refl,
        ap (λ x. x.contents) (update_self s.objects w.object _),
        ap (λ x. lookup str_discrete o.name x.objs) (update_self s.buckets o.bucket _)
            ∙ lookup-insert str_discrete o.name o.name w.object (s.buckets o.bucket).objs
            ∙ if_pos (str_discrete o.name o.name) refl _ _,
      )

abbrev opened : Str → ℕ → Store → Store
opened name b s = record s {
  objects = update s.objects s.next_object (fresh_object name b (s.buckets b));
  next_object = suc s.next_object;
}

object_named_new :
    (name : Str) (b : ℕ) (s : Store)
    → lookup str_discrete name (s.buckets b).objs ≡ none
    → object_named name b s ≡ (s.next_object, opened name b s)
unfolding object_named
object_named_new name b s new = ground (arith, new)

object_named_there :
    (name : Str) (b o : ℕ) (s : Store)
    → lookup str_discrete name (s.buckets b).objs ≡ some o
    → object_named name b s ≡ (o, s)
unfolding object_named
object_named_there name b o s there = ground (arith, there)

read_bytes_all : (p : Str) → read_bytes (length p) p ≡ some p
read_bytes_all [] = refl
read_bytes_all (c ∷ p) = ap some (take_all (length (c ∷ p)) (c ∷ p) (omega arith))

read_all :
    (p : Str) (o : ℕ) (s : Store)
    → (s.objects o).contents ≡ p
    → ((read (length p) o s).0 ≡ some p) × (((read (length p) o s).1.objects o).contents ≡ [])
unfolding read
read_all p o s h = (
  ap (read_bytes (length p)) h ∙ read_bytes_all p,
  ap (λ x. x.contents) (update_self s.objects o _)
      ∙ ap (drop (length p)) h
      ∙ drop_all (length p) p (omega arith),
)

read_end : (n o : ℕ) (s : Store) → (s.objects o).contents ≡ [] → (read (suc n) o s).0 ≡ none
unfolding read
read_end n o s h = ap (read_bytes (suc n)) h

-- A write through a writer for a new name of a bucket that has its map, and in which writes are not
-- to fail, reports all its bytes and puts the object into the bucket, so that `Object` finds the same handle from then
-- on. Reading as many bytes as were written gives them back. But what is read is gone: any reader
-- behind that one is at the end of the file.
pub write-read :
    (name p : Str) (b : ℕ) (s : Store)
    → lookup str_discrete name (s.buckets b).objs ≡ none
    → (s.buckets b).writes_must_fail ≡ false
    → (s.buckets b).has_objs ≡ true
    → (o : ℕ) × (s1 : Store) × (t : Store) × (object_named name b s ≡ (o, s1))
      × (write (new_writer o s1) p s1 ≡ (wrote (length p), t))
      × (object_named name b t ≡ (o, t))
      × ((read (length p) o t).0 ≡ some p)
      × ((n : ℕ) → (read (suc n) o (read (length p) o t).1).0 ≡ none)
unfolding new_writer
write-read name p b s new fine made =
    let r = s.next_object in
    let s1 = opened name b s in
    let w = new_writer r s1 in
    let handle : s1.objects r ≡ fresh_object name b (s.buckets b) = update_self s.objects r _ in
    let t = (write w p s1).1 in
    let (len, contents, there) =
      write_done w p s1 (ap (λ x. x.writes_must_fail) handle ∙ fine)
        (ap (λ x. (s.buckets x.bucket).has_objs) handle ∙ made) in
    let now_there : lookup str_discrete name (t.buckets b).objs ≡ some r =
      subst (λ x. lookup str_discrete x.name (t.buckets x.bucket).objs ≡ some r) handle there in
    let (got, left) = read_all p r t (contents ∙ ap (λ x. x.contents ++ p) handle) in
    (
      r,
      s1,
      t,
      object_named_new name b s new,
      ap (λ x. (x, t)) len,
      object_named_there name b r t now_there,
      got,
      λ n. read_end n r (read (length p) r t).1 left,
    )

-- Where writes are to fail, a write to a new name returns the error and changes nothing, so that the
-- object does not come into the bucket.
pub write_fails :
    (name p : Str) (b : ℕ) (s : Store)
    → lookup str_discrete name (s.buckets b).objs ≡ none
    → (s.buckets b).writes_must_fail ≡ true
    → (o : ℕ) × (s1 : Store) × (object_named name b s ≡ (o, s1))
      × (write (new_writer o s1) p s1 ≡ (refused, s1))
      × (lookup str_discrete name (s1.buckets b).objs ≡ none)
unfolding new_writer write
write_fails name p b s new failing =
    let r = s.next_object in
    let s1 = opened name b s in
    let fails : (s1.objects r).writes_must_fail ≡ true =
      ap (λ x. x.writes_must_fail) (update_self s.objects r _) ∙ failing in
    (r, s1, object_named_new name b s new, rw (fails, write) refl, new)
