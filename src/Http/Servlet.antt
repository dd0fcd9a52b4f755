-- ===== src/Http/Servlet.antt =====
-- src/servers/http/http_servlet.h and src/servers/http/http_servlet.cc: servlets and their dispatch.
-- m_datas is an association list with the latest entry of a path first; `none` is a null pointer. A
-- callback may change the request, the response and the session. `fnmatch` is the library's function,
-- its result as whether it is 0. The locks are left out.
use tiger.Base.{ℕ, zero, suc, Bool, List, [], ◌∷◌, ◌++◌, Option, none, some, if◌then◌else◌}
use tiger.Base.Int.{ℤ, pos}
use tiger.Http.Bytes.{bytes, strcmp}
use tiger.Http.Request.{HttpRequest}
use tiger.Http.Response.{HttpResponse, set_header}
use tiger.Http.Status.{HttpStatus}

-- The three objects that a servlet gets.
pub record Exchange {ℓ} (S : Type ℓ) : Type ℓ where
  pub request : HttpRequest
  pub response : HttpResponse
  pub session : S

pub data Servlet {ℓ} (S : Type ℓ) : Type ℓ where
  not_found_servlet : Servlet S
  function_servlet : (Exchange S → ℤ × Exchange S) → Servlet S

-- A loop over m_globs: its result, an iterator used after `erase` on it, or the end of the fuel.
pub data Looped {ℓ} (A : Type ℓ) : Type ℓ where
  done : A → Looped A
  undefined : Looped A
  out_of_fuel : Looped A

abbrev pub rsp_body : List ℕ
rsp_body =
    bytes
      "<html>            <head>                <title>                    404 Not Found                </title>            </head>            <body>                <center>                    <h1>404 Not Found</h1>                </center>            </body>        </html>"

-- ServletDispatch: m_datas, m_globs and m_default_servlet.
pub record ServletDispatch {ℓ} (S : Type ℓ) : Type ℓ where
  pub datas : List (List ℕ × Option (Servlet S))
  pub globs : List (List ℕ × Option (Servlet S))
  pub default_servlet : Option (Servlet S)

module _ {ℓ} {A : Type ℓ} where
  -- `m_datas.find(path)`, and `m_datas.erase(path)`.
  unfoldable pub find_path : List ℕ → List (List ℕ × A) → Option (A)
  find_path path [] = none
  find_path path ((p, s) ∷ datas) =
      let rest = find_path path datas in if strcmp p path then some s else rest

  unfoldable pub erase_path : List ℕ → List (List ℕ × A) → List (List ℕ × A)
  erase_path path [] = []
  erase_path path ((p, s) ∷ datas) =
      let rest = erase_path path datas in if strcmp p path then rest else (p, s) ∷ rest

  -- The loop of add_glob_servlet. It does not advance the iterator, nor take the result of `erase`.
  unfoldable pub erase_globs : ℕ → List ℕ → List (List ℕ × A) → Looped (List (List ℕ × A))
  erase_globs zero path globs = out_of_fuel
  erase_globs (suc fuel) path [] = done []
  erase_globs (suc fuel) path ((p, s) ∷ globs) =
      let rest = erase_globs fuel path ((p, s) ∷ globs) in if strcmp p path then undefined else rest

  -- The loop of del_glob_servlet, which leaves after one `erase` and does not advance either.
  unfoldable pub erase_glob : ℕ → List ℕ → List (List ℕ × A) → Looped (List (List ℕ × A))
  erase_glob zero path globs = out_of_fuel
  erase_glob (suc fuel) path [] = done []
  erase_glob (suc fuel) path ((p, s) ∷ globs) =
      let rest = erase_glob fuel path ((p, s) ∷ globs) in if strcmp p path then done globs else rest

  -- The loops that look for the first entry of m_globs with a `test`, and do not advance.
  unfoldable pub find_glob : ℕ → (List ℕ → Bool) → List (List ℕ × A) → A → Looped (A)
  find_glob zero test globs after = out_of_fuel
  find_glob (suc fuel) test [] after = done after
  find_glob (suc fuel) test ((p, s) ∷ globs) after =
      let rest = find_glob fuel test ((p, s) ∷ globs) after in if test p then done s else rest

module _ {ℓ} {S : Type ℓ} where
  -- NotFoundServlet::handle.
  unfoldable pub handle_not_found : Exchange S → ℤ × Exchange S
  handle_not_found x = (
    pos 0,
    record x {
      response =
          record (set_header
            (set_header (record x.response { status = HttpStatus.not_found }) (bytes "Content-Type")
              (bytes "text/html"))
            (bytes "Server") (bytes "tigerkin/1.0.0")) { body = rsp_body };
    },
  )

  -- Servlet::handle of the two servlets.
  unfoldable pub handle_servlet : Servlet S → Exchange S → ℤ × Exchange S
  unfolding handle_not_found
  handle_servlet not_found_servlet x = handle_not_found x
  handle_servlet (function_servlet cb) x = cb x

  unfoldable pub new_dispatch : ServletDispatch S
  new_dispatch = record { datas = []; globs = []; default_servlet = some not_found_servlet }

  unfoldable pub add_servlet : List ℕ → Option (Servlet S) → ServletDispatch S → ServletDispatch S
  unfolding erase_path
  add_servlet path slt d = record d { datas = (path, slt) ∷ erase_path path d.datas }

  -- The overload for a callback.
  unfoldable pub add_callback :
      List ℕ → (Exchange S → ℤ × Exchange S) → ServletDispatch S → ServletDispatch S
  unfolding add_servlet
  add_callback path cb d = add_servlet path (some (function_servlet cb)) d

  unfoldable pub add_glob_servlet :
      ℕ → List ℕ → Option (Servlet S) → ServletDispatch S → Looped (ServletDispatch S)
  unfolding erase_globs
  add_glob_servlet fuel path slt d = elim (erase_globs fuel path d.globs) [
    | done globs ↦ done (record d { globs = globs ++ ((path, slt) ∷ []) })
    | undefined ↦ undefined
    | out_of_fuel ↦ out_of_fuel
  ]

  unfoldable pub add_glob_callback :
      ℕ → List ℕ → (Exchange S → ℤ × Exchange S) → ServletDispatch S → Looped (ServletDispatch S)
  unfolding add_glob_servlet
  add_glob_callback fuel path cb d = add_glob_servlet fuel path (some (function_servlet cb)) d

  unfoldable pub del_servlet : List ℕ → ServletDispatch S → ServletDispatch S
  unfolding erase_path
  del_servlet path d = record d { datas = erase_path path d.datas }

  unfoldable pub del_glob_servlet : ℕ → List ℕ → ServletDispatch S → Looped (ServletDispatch S)
  unfolding erase_glob
  del_glob_servlet fuel path d = elim (erase_glob fuel path d.globs) [
    | done globs ↦ done (record d { globs = globs })
    | undefined ↦ undefined
    | out_of_fuel ↦ out_of_fuel
  ]

  unfoldable pub set_default_servlet : Option (Servlet S) → ServletDispatch S → ServletDispatch S
  set_default_servlet slt d = record d { default_servlet = slt }

  unfoldable pub get_servlet : List ℕ → ServletDispatch S → Option (Servlet S)
  unfolding find_path
  get_servlet path d = elim (find_path path d.datas) [ none ↦ none | some slt ↦ slt ]

  unfoldable pub get_glob_servlet : ℕ → List ℕ → ServletDispatch S → Looped (Option (Servlet S))
  unfolding find_glob
  get_glob_servlet fuel path d = find_glob fuel (λ p. strcmp p path) d.globs none

  unfoldable pub get_matched_servlet :
      (List ℕ → List ℕ → Bool) → ℕ → List ℕ → ServletDispatch S → Looped (Option (Servlet S))
  unfolding find_path find_glob
  get_matched_servlet fnmatch fuel path d = elim (find_path path d.datas) [
    | none ↦ find_glob fuel (λ p. fnmatch p path) d.globs d.default_servlet
    | some slt ↦ done slt
  ]

  -- ServletDispatch::handle.
  unfoldable pub handle_dispatch :
      (List ℕ → List ℕ → Bool) → ℕ → ServletDispatch S → Exchange S → Looped (ℤ × Exchange S)
  unfolding get_matched_servlet handle_servlet
  handle_dispatch fnmatch fuel d x = elim (get_matched_servlet fnmatch fuel x.request.path d) [
    | done none ↦ done (pos 0, x)
    | done (some slt) ↦ done (pos 0, (handle_servlet slt x).1)
    | undefined ↦ undefined
    | out_of_fuel ↦ out_of_fuel
  ]
