-- ===== src/Compliance/Manifests.antt =====
-- src/verifier/compliance.rs: the parts of `inspect_file` about package manifests and source code.
use subdollar_llm_coding_ben.Base.{◌&&◌, ◌||◌, List, [], ◌∷◌, ◌++◌, if◌then◌else◌}
use subdollar_llm_coding_ben.Text.{
  Text, codes, trim, starts_with, text_eq, contains, lines, is_one_of,
}
use subdollar_llm_coding_ben.Compliance.Files.{push_if, collect, extension}

-- `for f in forbidden { if content.contains(f) { .. } }`
pub find_dependencies : Text → Text → List Text → Text → List Text
find_dependencies label behind forbidden content =
    collect (λ f. push_if (contains content f) (label ++ (f ++ behind))) forbidden

pub inspect_package_json : Text → Text → List Text
unfolding find_dependencies
inspect_package_json filename content =
    if text_eq filename (codes "package.json")
    then find_dependencies (codes "package.json: uses forbidden dependency ") []
        (codes "\"express\""
          ∷ codes "\"fastify\""
          ∷ codes "\"koa\""
          ∷ codes "\"hapi\""
          ∷ codes "\"nest\""
          ∷ codes "\"sails\""
          ∷ codes "\"connect\""
          ∷ codes "\"ioredis\""
          ∷ codes "\"redis\""
          ∷ [])
        content
    else []

abbrev python_dependencies : List Text
python_dependencies =
    codes "flask"
    ∷ codes "fastapi"
    ∷ codes "django"
    ∷ codes "tornado"
    ∷ codes "aiohttp"
    ∷ codes "sanic"
    ∷ codes "redis"
    ∷ codes "valkey"
    ∷ codes "redis-py"
    ∷ codes "twisted"
    ∷ []

module _ (lower : Text → Text) where
  pub check_requirement : Text → Text → List Text
  check_requirement filename line =
      let trimmed = lower (trim line) in
      collect
        (λ f.
          push_if
            (starts_with trimmed f
              || contains trimmed (codes "\"" ++ (f ++ codes "\""))
              || contains trimmed (codes "'" ++ (f ++ codes "'")))
            (filename ++ (codes ": uses forbidden dependency '" ++ (f ++ codes "'"))))
        python_dependencies

  pub inspect_requirements : Text → Text → List Text
  inspect_requirements filename content =
      if text_eq filename (codes "requirements.txt") || text_eq filename (codes "pyproject.toml")
      then collect (check_requirement filename) (lines content)
      else []

pub inspect_cargo_toml : Text → Text → List Text
unfolding find_dependencies
inspect_cargo_toml filename content =
    if text_eq filename (codes "Cargo.toml")
    then find_dependencies (codes "Cargo.toml: uses forbidden dependency '") (codes "'")
        (codes "actix-web"
          ∷ codes "axum"
          ∷ codes "warp"
          ∷ codes "rocket"
          ∷ codes "tide"
          ∷ codes "hyper"
          ∷ codes "redis"
          ∷ codes "fred"
          ∷ [])
        content
    else []

pub inspect_go_mod : Text → Text → List Text
unfolding find_dependencies
inspect_go_mod filename content =
    if text_eq filename (codes "go.mod")
    then find_dependencies (codes "go.mod: uses forbidden dependency '") (codes "'")
        (codes "github.com/gin-gonic/gin"
          ∷ codes "github.com/labstack/echo"
          ∷ codes "github.com/gofiber/fiber"
          ∷ codes "github.com/go-redis/redis"
          ∷ codes "github.com/redis/go-redis"
          ∷ [])
        content
    else []

pub inspect_python : (Text → Text) → Text → Text → List Text
inspect_python lower filename content =
    let lowered = lower content in
    push_if (contains content (codes "http.server"))
      (filename ++ codes ": imports built-in http.server")
    ++ (push_if (contains content (codes "import flask") || contains content (codes "from flask"))
          (filename ++ codes ": imports flask")
        ++ (push_if
              (contains content (codes "import fastapi") || contains content (codes "from fastapi"))
              (filename ++ codes ": imports fastapi")
            ++ (push_if
                  ((contains lowered (codes "base64.b64decode")
                      || contains lowered (codes "codecs.decode"))
                    && (contains lowered (codes "exec(") || contains lowered (codes "eval(")))
                  (filename ++ codes ": uses obfuscated dynamic execution")
                ++ push_if
                    ((contains lowered (codes "__import__") || contains lowered (codes "importlib"))
                      && (contains lowered (codes "http")
                          || contains lowered (codes "server")
                          || contains lowered (codes "socket")))
                    (filename ++ codes ": uses dynamic reflection import"))))

pub inspect_go : Text → Text → List Text
inspect_go filename content =
    push_if
      (contains content (codes "http.ListenAndServe") || contains content (codes "http.Server{"))
      (filename ++ codes ": calls net/http built-in server (http.ListenAndServe)")

pub inspect_javascript : Text → Text → List Text
inspect_javascript filename content =
    push_if (contains content (codes "http.createServer"))
      (filename ++ codes ": calls node:http built-in server (http.createServer)")
    ++ push_if
        (contains content (codes "require('express')") || contains content (codes "from 'express'"))
        (filename ++ codes ": imports express")

pub inspect_rust : Text → Text → List Text
inspect_rust filename content =
    push_if (contains content (codes "actix_web::") || contains content (codes "axum::"))
      (filename ++ codes ": references web framework")

pub inspect_c : Text → Text → List Text
inspect_c filename content =
    push_if (contains content (codes "<microhttpd.h>"))
      (filename ++ codes ": includes forbidden library <microhttpd.h>")
    ++ push_if (contains content (codes "<event2/http.h>"))
        (filename ++ codes ": includes forbidden library <event2/http.h>")

-- `match ext`
unfoldable pub inspect_source : (Text → Text) → Text → Text → List Text
unfolding inspect_python inspect_go inspect_javascript inspect_rust inspect_c
inspect_source lower filename content =
    let ext = extension filename in
    if text_eq ext (codes "py")
    then inspect_python lower filename content
    else if text_eq ext (codes "go")
    then inspect_go filename content
    else if is_one_of (codes "js" ∷ codes "ts" ∷ []) ext
    then inspect_javascript filename content
    else if text_eq ext (codes "rs")
    then inspect_rust filename content
    else if is_one_of (codes "c" ∷ codes "cpp" ∷ codes "cc" ∷ codes "h" ∷ codes "hpp" ∷ []) ext
    then inspect_c filename content
    else []
