-- ===== src/Migrate/Discovered.antt =====
-- What the migrations that `discover_migrations` of src/kayak/cli/migrate.py returns are like.
use kayak_python.Base.{
  ℕ, ◌≡◌, refl, ap, sym, ◌∙◌, Bool, true, false, not, ◌||◌, some, List, [], ◌∷◌, any, map, keep_if,
  is_empty, All, arith, Bool-cases, Option-cases, inl, inr, List-cases,
}
use kayak_python.Base.Attempt.{ok, bind-ok, Attempt-cases}
use kayak_python.Base.Sort.{
  insert_sorted, sort, IsSorted, sort-IsSorted, sort-All, any-sort, any-insert_sorted,
}
use kayak_python.Base.Chars.{
  mem_chars, Chars, eq_chars, eq_chars→≡, eq_chars_sym, leb_chars, leb_chars_total,
}
use kayak_python.Migrate.Manifest.{
  Row, Migration, Directory, column, version_prefix, prefix_differs, check_file, manifest_migration,
  read_rows, discover_migrations,
}
use kayak_python.Migrate.Resume.{versions_of, HasDistinctVersions}

any-map {ℓ κ} :
    {A : Type ℓ} {B : Type κ} (p : B → Bool) (f : A → B) (xs : List A)
    → any p (map f xs) ≡ any (λ x. p (f x)) xs
any-map p f [] = refl
any-map p f (x ∷ xs) = ap (λ b. p (f x) || b) (any-map p f xs)

mem-map-sort :
    (le : Migration → Migration → Bool) (f : Migration → Chars) (v : Chars) (ms : List Migration)
    → mem_chars v (map f (sort le ms)) ≡ mem_chars v (map f ms)
mem-map-sort le f v ms =
    any-map (eq_chars v) f (sort le ms)
    ∙ any-sort le (λ m. eq_chars v (f m)) ms
    ∙ sym (any-map (eq_chars v) f ms)

insert-Distinct :
    (le : Migration → Migration → Bool) (m : Migration) (ms : List Migration)
    → mem_chars m.version (versions_of ms) ≡ false
    → HasDistinctVersions ms
    → HasDistinctVersions (insert_sorted le m ms)
unfolding insert_sorted
insert-Distinct le m [] h d = (refl, tt)
insert-Distinct le m (n ∷ ms) h d = elim (Bool-cases (le m n)) [
  | inl e ↦ rw (e, HasDistinctVersions) (h, d)
  | inr e ↦
      rw (e, HasDistinctVersions)
        (
          any-map (eq_chars n.version) (λ m. m.version) (insert_sorted le m ms)
              ∙ any-insert_sorted le (λ m. eq_chars n.version m.version) m ms
              ∙ sym (any-map (eq_chars n.version) (λ m. m.version) (m ∷ ms))
              ∙ ground (arith, eq_chars_sym m.version n.version),
          insert-Distinct le m ms (ground arith) d.1,
        )
]

sort-Distinct :
    (le : Migration → Migration → Bool) (ms : List Migration)
    → HasDistinctVersions ms
    → HasDistinctVersions (sort le ms)
unfolding sort
sort-Distinct le [] h = tt
sort-Distinct le (m ∷ ms) h =
    insert-Distinct le m (sort le ms) (mem-map-sort le (λ m. m.version) m.version ms ∙ h.0)
      (sort-Distinct le ms h.1)

listed_sort :
    (le : Migration → Migration → Bool) (ms : List Migration) (ns : List Chars)
    → All (λ n. mem_chars n (map (λ m. m.filename) ms) ≡ true) ns
    → All (λ n. mem_chars n (map (λ m. m.filename) (sort le ms)) ≡ true) ns
listed_sort le ms [] h = tt
listed_sort le ms (n ∷ ns) h =
    (mem-map-sort le (λ m. m.filename) n ms ∙ h.0, listed_sort le ms ns h.1)

module _ (is_decimal : ℕ → Bool) (file_sha256 : Chars → Chars) where
  -- The version is the number that the file's name starts with, and the digest is the file's.
  pub record Verified (dir : Directory) (m : Migration) : Type 0 where
    pub numbered : version_prefix is_decimal file_sha256 m.filename ≡ some m.version
    pub body : Chars
    pub present : dir.content m.filename ≡ some body
    pub unchanged : file_sha256 body ≡ m.digest

  -- A migration that is none of those read before.
  abbrev New : Directory → List Chars → List Chars → Migration → Type 0
  New dir seen listed m =
      Verified dir m × (mem_chars m.version seen ≡ false) × (mem_chars m.filename listed ≡ false)

  check_file-Verified :
      (dir : Directory) (version filename sha : Chars) (m : Migration)
      → prefix_differs is_decimal file_sha256 version filename ≡ false
      → check_file is_decimal file_sha256 dir version filename sha ≡ ok m
      → Verified dir m × (m.version ≡ version) × (m.filename ≡ filename)
  check_file-Verified dir version filename sha m d h =
      elim (Option-cases (version_prefix is_decimal file_sha256 filename)) [
        | inl e ↦ absurd (ground arith)
        | inr (p, ep) ↦ elim (Option-cases (dir.content filename)) [
          | inl e ↦ absurd (ground arith)
          | inr (body, eb) ↦ elim (Bool-cases (eq_chars (file_sha256 body) sha)) [
            | inr e ↦ absurd (ground arith)
            | inl es ↦
                let same : m ≡ record { version = version; filename = filename; digest = sha } =
                  ground arith in
                rw same (
                  record {
                    numbered = ep ∙ ap some (eq_chars→≡ p version (ground arith));
                    body = body;
                    present = eb;
                    unchanged = eq_chars→≡ (file_sha256 body) sha es;
                  },
                  refl,
                  refl,
                )
          ]
        ]
      ]

  manifest_migration-New :
      (dir : Directory) (row : Row) (seen listed : List Chars) (m : Migration)
      → manifest_migration is_decimal file_sha256 dir row seen listed ≡ ok m
      → New dir seen listed m
  unfolding manifest_migration
  manifest_migration-New dir row seen listed m h =
      let version = column row.version in
      let filename = column row.filename in
      let sha = column row.sha256 in
      elim (Bool-cases (is_empty version || is_empty filename || is_empty sha)) [
        | inl e ↦ absurd (ground arith)
        | inr e ↦ elim (Bool-cases (prefix_differs is_decimal file_sha256 version filename)) [
          | inl d ↦ absurd (ground arith)
          | inr d ↦ elim (Bool-cases (mem_chars version seen)) [
            | inl s ↦ absurd (ground arith)
            | inr s ↦ elim (Bool-cases (mem_chars filename listed)) [
              | inl l ↦ absurd (ground arith)
              | inr l ↦
                  let (v, same_version, same_name) =
                    check_file-Verified dir version filename sha m d (ground arith) in
                  (v, rw same_version s, rw same_name l)
            ]
          ]
        ]
      ]

  older-New :
      (dir : Directory) (v f : Chars) (seen listed : List Chars) (ms : List Migration)
      → All (New dir (v ∷ seen) (f ∷ listed)) ms
      → All (New dir seen listed) ms × (mem_chars v (versions_of ms) ≡ false)
  older-New dir v f seen listed [] h = (tt, refl)
  older-New dir v f seen listed (m ∷ ms) (new, rest) =
      let (olds, fresh) = older-New dir v f seen listed ms rest in
      (((new.0, ground arith, ground arith), olds), ground (arith, eq_chars_sym v m.version))

  read_rows-New :
      (dir : Directory) (rows : List Row) (seen listed : List Chars) (ms : List Migration)
      → read_rows is_decimal file_sha256 dir rows seen listed ≡ ok ms
      → All (New dir seen listed) ms × HasDistinctVersions ms
  unfolding read_rows
  read_rows-New dir [] seen listed [] h = (tt, tt)
  read_rows-New dir [] seen listed (m ∷ ms) h = absurd (ground arith)
  read_rows-New dir (row ∷ rows) seen listed ms h =
      let (m, em, h1) =
        bind-ok (manifest_migration is_decimal file_sha256 dir row seen listed) _ h in
      let (rest, er, h2) =
        bind-ok (read_rows is_decimal file_sha256 dir rows (m.version ∷ seen) (m.filename ∷ listed))
          (λ rest. ok (m ∷ rest)) h1 in
      let same : ms ≡ m ∷ rest = ground arith in
      let new = manifest_migration-New dir row seen listed m em in
      let (news, distinct) =
        read_rows-New dir rows (m.version ∷ seen) (m.filename ∷ listed) rest er in
      let (olds, fresh) = older-New dir m.version m.filename seen listed rest news in
      rw same ((new, olds), (fresh, distinct))

  New-Verified :
      (dir : Directory) (ms : List Migration) → All (New dir [] []) ms → All (Verified dir) ms
  New-Verified dir [] h = tt
  New-Verified dir (m ∷ ms) (h, hs) = (h.0, New-Verified dir ms hs)

  listed-All :
      (ms : List Migration) (ns : List Chars)
      → keep_if (λ n. not (mem_chars n (map (λ m. m.filename) ms))) ns ≡ []
      → All (λ n. mem_chars n (map (λ m. m.filename) ms) ≡ true) ns
  listed-All ms [] h = tt
  listed-All ms (n ∷ ns) h = (ground arith, listed-All ms ns (ground arith))

  -- What is known of the migrations that were discovered in a directory.
  pub record Discovered (dir : Directory) (ms : List Migration) : Type 0 where
    pub verified : All (Verified dir) ms
    pub distinct : HasDistinctVersions ms
    pub in_order : IsSorted (λ a b. leb_chars a.version b.version) ms
    pub complete :
        dir.is_dir ≡ true → All (λ n. mem_chars n (map (λ m. m.filename) ms) ≡ true) dir.sql_names

  sorted-Discovered :
      (dir : Directory) (rows : List Row) (out : List Migration)
      → read_rows is_decimal file_sha256 dir rows [] [] ≡ ok out
      → keep_if (λ n. not (mem_chars n (map (λ m. m.filename) out))) dir.sql_names ≡ []
      → Discovered dir (sort (λ a b. leb_chars a.version b.version) out)
  sorted-Discovered dir rows out e none_left =
      let le = λ (a b : Migration). leb_chars a.version b.version in
      let (news, distinct) = read_rows-New dir rows [] [] out e in
      record {
        verified = sort-All le (Verified dir) out (New-Verified dir out news);
        distinct = sort-Distinct le out distinct;
        in_order = sort-IsSorted le (λ a b. leb_chars_total a.version b.version) out;
        complete = λ c. listed_sort le out dir.sql_names (listed-All out dir.sql_names none_left);
      }

  -- The migrations that `discover_migrations` returns have each the number that its file's name
  -- starts with and the digest of its file, no two have the same version, they stand in the order
  -- of their versions, and every SQL file of the directory is among them.
  pub discover_migrations-Discovered :
      (dir : Directory) (ms : List Migration)
      → discover_migrations is_decimal file_sha256 dir ≡ ok ms
      → Discovered dir ms
  unfolding discover_migrations
  discover_migrations-Discovered dir ms h = elim (Bool-cases dir.is_dir) [
    | inr e ↦
        (let same : ms ≡ [] = ground arith in
          rw same (record {
            verified = tt;
            distinct = tt;
            in_order = tt;
            complete = λ c. absurd (ground arith);
          }))
    | inl e ↦ elim (Option-cases dir.manifest) [
      | inl n ↦ absurd (ground arith)
      | inr (rows, er) ↦ elim (Attempt-cases (read_rows is_decimal file_sha256 dir rows [] [])) [
        | inr (x, ex) ↦ absurd (ground arith)
        | inl (out, eo) ↦
            elim (List-cases
              (keep_if (λ n. not (mem_chars n (map (λ m. m.filename) out))) dir.sql_names)) [
                | inr (n, ns, left) ↦ absurd (ground arith)
                | inl none_left ↦
                    (let same : ms ≡ sort (λ a b. leb_chars a.version b.version) out =
                        ground arith in
                      rw same (sorted-Discovered dir rows out eo none_left))
              ]
      ]
    ]
  ]
