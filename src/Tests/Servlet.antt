-- ===== src/Tests/Servlet.antt =====
-- Concrete runs of src/servers/http/http_servlet.cc. The session is a number here.
use tiger.Base.{ℕ, [], ◌∷◌, none, some, ◌≡◌, refl}
use tiger.Http.Bytes.{bytes}
use tiger.Http.Servlet.{
  ServletDispatch, out_of_fuel, not_found_servlet, add_glob_servlet, del_glob_servlet,
  get_glob_servlet,
}
use tiger.Http.ServletLaws.{glob_stuck}

abbrev one_glob : ServletDispatch ℕ
one_glob = record {
  datas = [];
  globs = (bytes "/a/*", some not_found_servlet) ∷ [];
  default_servlet = none;
}

glob_stuck_example :
    (add_glob_servlet 9 (bytes "/b") none one_glob ≡ out_of_fuel)
    × (del_glob_servlet 9 (bytes "/b") one_glob ≡ out_of_fuel)
    × (get_glob_servlet 9 (bytes "/b") one_glob ≡ out_of_fuel)
glob_stuck_example =
    glob_stuck 9 (bytes "/b") (bytes "/a/*") (some not_found_servlet) none [] one_glob refl refl
