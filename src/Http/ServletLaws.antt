-- ===== src/Http/ServletLaws.antt =====
-- src/servers/http/http_servlet.cc: which servlet a path is dispatched to, and the loops over globs.
use tiger.Base.{ℕ, zero, suc, Bool, true, false, List, [], ◌∷◌, Option, none, if◌then◌else◌}
use tiger.Base.{◌≡◌, refl, ap, sym, ◌∙◌, Bool-cases, inl, inr, arith}
use tiger.Http.Bytes.{strcmp}
use tiger.Http.FieldsLaws.{strcmp-eq, strcmp_refl}
use tiger.Http.Servlet.{
  Servlet, done, out_of_fuel, ServletDispatch, find_path, erase_path, add_servlet, erase_globs,
  add_glob_servlet, del_servlet, erase_glob, del_glob_servlet, find_glob, get_glob_servlet,
  get_matched_servlet,
}

strcmp-other : (p path other : List ℕ) → strcmp p path ≡ true → strcmp p other ≡ strcmp path other
strcmp-other p path other e = ap (λ x. strcmp x other) (strcmp-eq p path e)

strcmp-joined :
    (p path other : List ℕ)
    → strcmp p other ≡ true
    → strcmp path other ≡ true
    → strcmp p path ≡ true
strcmp-joined p path other e h =
    ap (strcmp p) (strcmp-eq path other h ∙ sym (strcmp-eq p other e)) ∙ strcmp_refl p

module _ {ℓ} {A : Type ℓ} where
  find_path-erase_path :
      (path other : List ℕ) (datas : List (List ℕ × A))
      → find_path other (erase_path path datas)
        ≡ (if strcmp path other then none else find_path other datas)
  unfolding find_path erase_path
  find_path-erase_path path other [] = ground arith
  find_path-erase_path path other ((p, s) ∷ datas) =
      let rest = find_path-erase_path path other datas in
      elim (Bool-cases (strcmp p path)) [
        | inl e ↦ ground (arith, rest, strcmp-other p path other e)
        | inr e ↦ ground (arith, rest, strcmp-joined p path other)
      ]

  find_path-erase_added :
      (path other : List ℕ) (s : A) (datas : List (List ℕ × A))
      → find_path other (erase_path path ((path, s) ∷ erase_path path datas))
        ≡ (if strcmp path other then none else find_path other datas)
  unfolding find_path
  find_path-erase_added path other s datas = ground (
    arith,
    find_path-erase_path path other ((path, s) ∷ erase_path path datas),
    find_path-erase_path path other datas,
  )

  find_glob_stuck :
      (fuel : ℕ) (test : List ℕ → Bool) (p : List ℕ) (s after : A) (globs : List (List ℕ × A))
      → test p ≡ false
      → find_glob fuel test ((p, s) ∷ globs) after ≡ out_of_fuel
  unfolding find_glob
  find_glob_stuck zero test p s after globs e = refl
  find_glob_stuck (suc fuel) test p s after globs e =
      rw e (find_glob_stuck fuel test p s after globs e)

  erase_globs_stuck :
      (fuel : ℕ) (path p : List ℕ) (s : A) (globs : List (List ℕ × A))
      → strcmp p path ≡ false
      → erase_globs fuel path ((p, s) ∷ globs) ≡ out_of_fuel
  unfolding erase_globs
  erase_globs_stuck zero path p s globs e = refl
  erase_globs_stuck (suc fuel) path p s globs e = rw e (erase_globs_stuck fuel path p s globs e)

  erase_glob_stuck :
      (fuel : ℕ) (path p : List ℕ) (s : A) (globs : List (List ℕ × A))
      → strcmp p path ≡ false
      → erase_glob fuel path ((p, s) ∷ globs) ≡ out_of_fuel
  unfolding erase_glob
  erase_glob_stuck zero path p s globs e = refl
  erase_glob_stuck (suc fuel) path p s globs e = rw e (erase_glob_stuck fuel path p s globs e)

module _ {ℓ} {S : Type ℓ} where
  -- After add_servlet, the added servlet is dispatched to at its path, whatever the globs are, and all
  -- other paths are dispatched as before.
  get_matched_servlet-add_servlet :
      (fnmatch : List ℕ → List ℕ → Bool) (fuel : ℕ) (path other : List ℕ) (slt : Option (Servlet S))
      (d : ServletDispatch S)
      → get_matched_servlet fnmatch fuel other (add_servlet path slt d)
        ≡ (if strcmp path other then done slt else get_matched_servlet fnmatch fuel other d)
  unfolding get_matched_servlet add_servlet find_path
  get_matched_servlet-add_servlet fnmatch fuel path other slt d =
      elim (Bool-cases (strcmp path other)) [
        | inl e ↦ rw (e, get_matched_servlet, add_servlet, find_path) refl
        | inr e ↦
            rw
              (
                e,
                get_matched_servlet,
                add_servlet,
                find_path,
                find_path-erase_path path other d.datas,
              )
              (rw e refl)
      ]

  -- del_servlet undoes add_servlet: the path is dispatched by globs and the default alone, and all other
  -- paths as before either.
  pub get_matched_servlet-del_servlet :
      (fnmatch : List ℕ → List ℕ → Bool) (fuel : ℕ) (path other : List ℕ) (slt : Option (Servlet S))
      (d : ServletDispatch S)
      → get_matched_servlet fnmatch fuel other (del_servlet path (add_servlet path slt d)) ≡ (
          if strcmp path other
          then get_matched_servlet fnmatch fuel other (record d { datas = [] })
          else get_matched_servlet fnmatch fuel other d)
  unfolding get_matched_servlet del_servlet add_servlet find_path
  get_matched_servlet-del_servlet fnmatch fuel path other slt d =
      let gone = find_path-erase_added path other slt d.datas in
      elim (Bool-cases (strcmp path other)) [
        | inl e ↦ rw (get_matched_servlet, del_servlet, add_servlet, gone) (rw e refl)
        | inr e ↦ rw (get_matched_servlet, del_servlet, add_servlet, gone) (rw e refl)
      ]

  -- When the glob that stands first does not match a path, and the path has no servlet of its own, the
  -- loop of get_matched_servlet for it never ends, with any number of rounds.
  get_matched_servlet_stuck :
      (fnmatch : List ℕ → List ℕ → Bool) (fuel : ℕ) (path p : List ℕ) (s : Option (Servlet S))
      (globs : List (List ℕ × Option (Servlet S))) (d : ServletDispatch S)
      → d.globs ≡ ((p, s) ∷ globs)
      → fnmatch p path ≡ false
      → find_path path d.datas ≡ none
      → get_matched_servlet fnmatch fuel path d ≡ out_of_fuel
  unfolding get_matched_servlet
  get_matched_servlet_stuck fnmatch fuel path p s globs d e unmatched missing =
      rw (get_matched_servlet, missing, e)
        (find_glob_stuck fuel (λ q. fnmatch q path) p s d.default_servlet globs unmatched)

  -- When the glob that stands first has another pattern than a path, the loops of add_glob_servlet,
  -- del_glob_servlet and get_glob_servlet for that path never end, with any number of rounds.
  pub glob_stuck :
      (fuel : ℕ) (path p : List ℕ) (s slt : Option (Servlet S))
      (globs : List (List ℕ × Option (Servlet S))) (d : ServletDispatch S)
      → d.globs ≡ ((p, s) ∷ globs)
      → strcmp p path ≡ false
      → (add_glob_servlet fuel path slt d ≡ out_of_fuel)
        × (del_glob_servlet fuel path d ≡ out_of_fuel)
        × (get_glob_servlet fuel path d ≡ out_of_fuel)
  unfolding add_glob_servlet del_glob_servlet get_glob_servlet
  glob_stuck fuel path p s slt globs d e differs = (
    rw (e, add_glob_servlet, erase_globs_stuck fuel path p s globs differs) refl,
    rw (e, del_glob_servlet, erase_glob_stuck fuel path p s globs differs) refl,
    rw e (find_glob_stuck fuel (λ q. strcmp q path) p s none globs differs),
  )
