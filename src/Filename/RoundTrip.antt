-- ===== src/Filename/RoundTrip.antt =====
-- What `parse_filename` reads from the names that `build_filename` writes.
use mathlib.Core.Path.{◌≡⟨◌⟩◌, ◌∎}
use qsqlite_sync_engine.Prelude.{
  ℕ, ◌^◌, ◌≤◌, ◌<◌, ◌≡◌, refl, ap, sym, ◌∙◌, inl, inr, ℤ, pos, IsInt32, List, [], ◌∷◌, ◌++◌,
  append_assoc, arith, length, length-append, ltb, true, false, All-append,
}
use qsqlite_sync_engine.Text.{
  QString, codes, Lacks, split, join-split, split-append, split-Lacks, length-split, ends_with,
  ends_with-append, chop-append, last-append, remove_last-append, starts_with,
}
use qsqlite_sync_engine.Filename.{
  extension, underscore, version_letter, base_name, parse_parts, parse_filename, build_filename,
}
use qsqlite_sync_engine.Qt.{Qt, QtLaws, marker, EndsMarker, Above}

module _ (qt : Qt) (laws : QtLaws qt) where
  open laws use {arg_lowest, number_digits, int_chars, to_ulonglong-number, to_int-int_text}

  -- one replacement, behind text that holds no marker
  fill :
      (pre between post a : QString) (k : ℕ)
      → 1 ≤ k
      → k ≤ 9
      → Lacks b'%' pre
      → Lacks b'%' between
      → EndsMarker post
      → Above k post
      → qt.arg (pre ++ (between ++ (marker k ++ post))) a ≡ (pre ++ (between ++ a)) ++ post
  fill pre between post a k h1 hk hp hb ends hpost =
      qt.arg (pre ++ (between ++ (marker k ++ post))) a
      ≡⟨ ap (λ t. qt.arg t a) (sym (append_assoc pre between (marker k ++ post))) ⟩
        qt.arg ((pre ++ between) ++ (marker k ++ post)) a
      ≡⟨ arg_lowest (pre ++ between) post a k h1 hk (All-append _ pre between hp hb) ends hpost ⟩
        (pre ++ between) ++ (a ++ post)
      ≡⟨ (simp append_assoc) ⟩ (pre ++ (between ++ a)) ++ post ∎

  no_percent : (width n : ℕ) → Lacks b'%' (qt.number width n)
  no_percent width n = number_digits width n b'%' (inl (omega arith))

  -- the four replacements, for a client without a place marker in its name
  build_filename_lem :
      (c : QString) (hlc sequence : ℕ) (v : ℤ)
      → Lacks b'%' c
      → build_filename qt c hlc sequence v
        ≡ (c
            ++ underscore
              ∷ (qt.number 20 hlc
                  ++ underscore
                    ∷ (qt.number 10 sequence ++ underscore ∷ version_letter ∷ qt.int_text v)))
          ++ extension
  unfolding build_filename
  build_filename_lem c hlc sequence v h =
      let n = qt.number 20 hlc in
      let m = qt.number 10 sequence in
      let sep : QString = underscore ∷ [] in
      let with_hlc : QString = c ++ (sep ++ n) in
      let hn : Lacks b'%' with_hlc =
        All-append _ c (sep ++ n) h (All-append _ sep n (omega arith) (no_percent 20 hlc)) in
      let hm : Lacks b'%' (with_hlc ++ (sep ++ m)) =
        All-append _ with_hlc (sep ++ m) hn
          (All-append _ sep m (omega arith) (no_percent 10 sequence)) in
      let v_text = qt.int_text v in
      let first =
        arg_lowest [] (codes "_%2_%3_v%4.changeset") c 1 (omega arith) (omega arith) tt
          (omega arith) (omega arith) in
      let second =
        fill c sep (codes "_%3_v%4.changeset") n 2 (omega arith) (omega arith) h (omega arith)
          (omega arith) (omega arith) in
      let third =
        fill with_hlc sep (codes "_v%4.changeset") m 3 (omega arith) (omega arith) hn (omega arith)
          (omega arith) (omega arith) in
      let fourth =
        fill (with_hlc ++ (sep ++ m)) (codes "_v") extension v_text 4 (omega arith) (omega arith) hm
          (omega arith) (omega arith) (omega arith) in
      ap (λ t. qt.arg (qt.arg (qt.arg t n) m) v_text) first
      ∙ ap (λ t. qt.arg (qt.arg t m) v_text) second
      ∙ ap (λ t. qt.arg t v_text) third
      ∙ fourth
      ∙ (simp append_assoc)

  -- the parts of a name without its extension
  split-name :
      (c n m rest : QString)
      → Lacks underscore n
      → Lacks underscore m
      → Lacks underscore rest
      → split (c ++ underscore ∷ (n ++ underscore ∷ (m ++ underscore ∷ rest))) underscore
        ≡ ((split c underscore ++ n ∷ []) ++ m ∷ []) ++ rest ∷ []
  split-name c n m rest hn hm hr =
      simp (split-append, split-Lacks underscore n hn, split-Lacks underscore m hm, append_assoc)
        (rw (split-Lacks underscore rest hr))

  no_underscore : (width n : ℕ) → Lacks underscore (qt.number width n)
  no_underscore width n = number_digits width n underscore (inr (omega arith))

  three_parts :
      (ps : List QString) (p q : QString)
      → 1 ≤ length ps
      → ltb (length ((ps ++ p ∷ []) ++ q ∷ [])) 3 ≡ false
  three_parts ps p q h =
      ground (arith, length-append (ps ++ p ∷ []) (q ∷ []), length-append ps (p ∷ []))

  parse_parts_lem :
      (filename c : QString) (hlc sequence width width' : ℕ) (v : ℤ)
      → hlc < 2 ^ 64
      → sequence < 2 ^ 64
      → parse_parts qt filename
          ((split c underscore ++ qt.number width hlc ∷ []) ++ qt.number width' sequence ∷ [])
          v
        ≡ record {
          filename = filename;
          client_id = c;
          hlc = hlc;
          sequence = sequence;
          schema_version = v;
        }
  unfolding parse_parts
  parse_parts_lem filename c hlc sequence width width' v h k =
      let ps = split c underscore in
      rw (
        three_parts ps (qt.number width hlc) (qt.number width' sequence)
            (length-split underscore c),
        remove_last-append (ps ++ qt.number width hlc ∷ []) (qt.number width' sequence),
        remove_last-append ps (qt.number width hlc),
        last-append (ps ++ qt.number width hlc ∷ []) (qt.number width' sequence),
        last-append ps (qt.number width hlc),
        join-split underscore c,
        to_ulonglong-number width hlc h,
        to_ulonglong-number width' sequence k,
      )

  base_name_lem : (s : QString) → base_name (s ++ extension) ≡ s
  unfolding base_name
  base_name_lem s = rw (ends_with-append s extension) (chop-append s extension)

  parse_versioned :
      (filename c : QString) (hlc sequence width width' : ℕ) (v : ℤ)
      → hlc < 2 ^ 64
      → sequence < 2 ^ 64
      → IsInt32 v
      → base_name filename
        ≡ c
          ++ underscore
            ∷ (qt.number width hlc
                ++ underscore
                  ∷ (qt.number width' sequence ++ underscore ∷ version_letter ∷ qt.int_text v))
      → parse_filename qt filename ≡ record {
        filename = filename;
        client_id = c;
        hlc = hlc;
        sequence = sequence;
        schema_version = v;
      }
  unfolding parse_filename
  parse_versioned filename c hlc sequence width width' v hh hs hv base =
      let n = qt.number width hlc in
      let m = qt.number width' sequence in
      let tag : QString = version_letter ∷ qt.int_text v in
      let ps = split c underscore ++ n ∷ [] in
      let hv' : Lacks underscore tag =
        (omega arith, int_chars v underscore hv (omega arith) (inr (omega arith))) in
      rw
        (
          base,
          split-name c n m tag (no_underscore width hlc) (no_underscore width' sequence) hv',
          last-append (ps ++ m ∷ []) tag,
          remove_last-append (ps ++ m ∷ []) tag,
          three_parts ps m tag (omega (arith, length-append (split c underscore) (n ∷ []))),
          to_int-int_text v hv,
        )
        (unfold starts_with in parse_parts_lem filename c hlc sequence width width' v hh hs)

  undotted :
      (c rest : QString)
      → starts_with c (codes ".") ≡ false
      → starts_with ((c ++ underscore ∷ rest) ++ extension) (codes ".") ≡ false
  unfolding starts_with
  undotted [] rest h = refl
  undotted (x ∷ c) rest h = ground arith

  -- A built name holds no slash, if the client identifier holds neither a slash nor `%`, and has the
  -- extension, and it begins with no dot, if the identifier does not: it names a file of the folder
  -- itself that the listing shows.
  pub build_filename-IsName :
      (c : QString) (hlc sequence : ℕ) (v : ℤ)
      → Lacks b'%' c
      → Lacks b'/' c
      → starts_with c (codes ".") ≡ false
      → IsInt32 v
      → Lacks b'/' (build_filename qt c hlc sequence v)
        × (ends_with (build_filename qt c hlc sequence v) extension ≡ true)
        × (starts_with (build_filename qt c hlc sequence v) (codes ".") ≡ false)
  build_filename-IsName c hlc sequence v h hs hd hv =
      let n = qt.number 20 hlc in
      let m = qt.number 10 sequence in
      let tag : QString = underscore ∷ version_letter ∷ qt.int_text v in
      let no_slash : (width k : ℕ) → Lacks b'/' (qt.number width k) =
        λ width k. number_digits width k b'/' (inl (omega arith)) in
      let in_tag : Lacks b'/' tag =
        (omega arith, (omega arith, int_chars v b'/' hv (omega arith) (inl (omega arith)))) in
      let in_end : Lacks b'/' (underscore ∷ (m ++ tag)) =
        (omega arith, All-append _ m tag (no_slash 10 sequence) in_tag) in
      let in_base : Lacks b'/' (c ++ underscore ∷ (n ++ underscore ∷ (m ++ tag))) =
        All-append _ c _ hs (omega arith, All-append _ n _ (no_slash 20 hlc) in_end) in
      rw (build_filename_lem c hlc sequence v h) (
        All-append _ _ extension in_base (omega arith),
        ends_with-append _ extension,
        undotted c _ hd,
      )

  -- For a client identifier without `%`, a timestamp and a sequence number of 64 bits and a version of
  -- 32 bits, the name that is built is read back field by field, also where the identifier holds
  -- underscores.
  pub parse-build :
      (c : QString) (hlc sequence : ℕ) (v : ℤ)
      → Lacks b'%' c
      → hlc < 2 ^ 64
      → sequence < 2 ^ 64
      → IsInt32 v
      → parse_filename qt (build_filename qt c hlc sequence v) ≡ record {
        filename = build_filename qt c hlc sequence v;
        client_id = c;
        hlc = hlc;
        sequence = sequence;
        schema_version = v;
      }
  parse-build c hlc sequence v h hh hs hv =
      rw (build_filename_lem c hlc sequence v h)
        (parse_versioned _ c hlc sequence 20 10 v hh hs hv (base_name_lem _))

  number-starts_with : (width n : ℕ) → starts_with (qt.number width n) (version_letter ∷ []) ≡ false
  number-starts_with width n =
      not_first (qt.number width n) (number_digits width n b'v' (inr (omega arith)))
    where
      not_first : (s : QString) → Lacks b'v' s → starts_with s (version_letter ∷ []) ≡ false
      not_first [] h = unfold starts_with in refl
      not_first (c ∷ s) h = unfold starts_with in ground arith

  -- A name in the legacy format, without a version tag, is read back with version 0, whatever the
  -- client identifier: its timestamp and sequence number are of 64 bits.
  pub parse_legacy :
      (c : QString) (hlc sequence width width' : ℕ)
      → hlc < 2 ^ 64
      → sequence < 2 ^ 64
      → parse_filename qt (
          (c ++ underscore ∷ (qt.number width hlc ++ underscore ∷ qt.number width' sequence))
          ++ extension)
        ≡ record {
          filename =
              (c ++ underscore ∷ (qt.number width hlc ++ underscore ∷ qt.number width' sequence))
              ++ extension;
          client_id = c;
          hlc = hlc;
          sequence = sequence;
          schema_version = pos 0;
        }
  unfolding parse_filename
  parse_legacy c hlc sequence width width' hh hs =
      let n = qt.number width hlc in
      let m = qt.number width' sequence in
      let parts = (split c underscore ++ n ∷ []) ++ m ∷ [] in
      let base = c ++ underscore ∷ (n ++ underscore ∷ m) in
      let cut : split base underscore ≡ parts =
        simp (split-append, split-Lacks underscore n (no_underscore width hlc), append_assoc)
          (rw (split-Lacks underscore m (no_underscore width' sequence))) in
      rw
        (
          base_name_lem base,
          cut,
          three_parts (split c underscore) n m (length-split underscore c),
          last-append (split c underscore ++ n ∷ []) m,
          number-starts_with width' sequence,
        )
        (parse_parts_lem _ c hlc sequence width width' (pos 0) hh hs)
