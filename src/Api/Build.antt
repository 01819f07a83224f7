-- ===== src/Api/Build.antt =====
-- handleBuild of internal/daemon/api.go with the helpers of internal/daemon/build.go; docker and the
-- temporary directory are parameters.
use oakberryio.Prelude.{
  ℕ, Bool, Option, none, some, List, [], ◌∷◌, ◌++◌, Text, t, ◌==◌, text_eq, if◌then◌else◌, sort,
  le_text,
}
use oakberryio.Prelude.Dict.{Dict, lookup, keys}
use oakberryio.Prelude.Results.{Result, ok, err, bad_json, from_option}
use oakberryio.Text.Decimal.{itoa}
use oakberryio.Cli.Lines.{newline}
use oakberryio.Cli.Stream.{error_text}
use oakberryio.Paths.{join}
use oakberryio.Wire.{Request, Response, Codec}
use oakberryio.Deploy.{World, removed}
use oakberryio.Deploy.State.{record_effect}
use oakberryio.Extract.{Entry, FileSystem, extract_build_context}
use oakberryio.Extract.Guard.{safe_extract_path}
use oakberryio.Api.{Server, Handler, respond, refuse, bad_request, internal_error, for_app}

-- What a run of docker prints, and the words of its error if it fails.
pub record Run : Type 0 where
  pub printed : Text
  pub failure : Option Text

-- The tar reader, os.MkdirTemp and docker.
pub record Builder : Type 0 where
  pub registry : Text
  pub nanos : ℕ
  pub disk : FileSystem
  -- the entries of a tar, and whether an error of the reader ends them
  pub entries : Text → List Entry × Bool
  pub temp_dir : Text → Option Text
  pub docker : List Text → Run

unfoldable pub parse_build_args_header : Codec → Text → Result (Dict Text)
parse_build_args_header codec h =
    if h == t "" then ok [] else from_option bad_json (codec.read_dict h)

-- buildArgs[k], which is "" for a key that is not there
unfoldable pub arg_value : Text → Dict Text → Text
arg_value k d = elim (lookup k d) [ none ↦ t "" | some v ↦ v ]

unfoldable pub build_arg_flags : List Text → Dict Text → List Text
build_arg_flags [] args = []
build_arg_flags (k ∷ ks) args =
    t "--build-arg" ∷ (k ++ b'=' ∷ arg_value k args) ∷ build_arg_flags ks args

unfoldable pub build_docker_build_args : Text → Text → Text → Dict Text → List Text
build_docker_build_args image dockerfile_path context_dir args =
    t "build"
    ∷ t "--platform"
    ∷ t "linux/amd64"
    ∷ t "-f"
    ∷ dockerfile_path
    ∷ (build_arg_flags (sort le_text (keys args)) args ++ t "-t" ∷ image ∷ context_dir ∷ [])

-- fmt.Fprintf(fw, "error: docker build: %v\n", err)
unfoldable pub failed_at : Text → Text → Text
failed_at what words = error_text (what ++ (t ": " ++ words)) []

-- The docker push, and the line that ends the stream
unfoldable pub push_image : Builder → Text → Text
push_image b image =
    let run = b.docker (t "push" ∷ image ∷ []) in
    run.printed ++ elim run.failure [
      | some words ↦ failed_at (t "docker push") words
      | none ↦ t "image " ++ (image ++ newline ∷ [])
    ]

unfoldable pub build_and_push : Builder → Text → List Text → Text
build_and_push b image args =
    let run = b.docker args in
    run.printed ++ elim run.failure [
      | some words ↦ failed_at (t "docker build") words
      | none ↦ push_image b image
    ]

unfoldable pub extracted : Result (Unit {0}) → Handler → Handler
extracted (err e) next w = refuse bad_request w
extracted (ok done) next w = next w

-- defer os.RemoveAll(ctxDir)
unfoldable pub without_dir : Text → Response × World → Response × World
without_dir ctx_dir (response, w) = (response, record_effect (removed ctx_dir) w)

module _ (s : Server) (b : Builder) where
  unfoldable pub image_name : Text → Text
  image_name name = b.registry ++ (b'/' ∷ (name ++ (b':' ∷ itoa b.nanos)))

  unfoldable pub run_build : Text → Text → Text → Dict Text → Handler
  run_build name dockerfile ctx_dir args w = elim (safe_extract_path ctx_dir dockerfile) [
    | err e ↦ refuse bad_request w
    | ok path ↦
        let image = image_name name in
        respond 200 (build_and_push b image (build_docker_build_args image path ctx_dir args)) w
  ]

  -- After the extraction into the new directory, which is removed when the handler returns.
  unfoldable pub build_in : Text → Request → Text → Dict Text → Text → Handler
  build_in name req dockerfile args ctx_dir w =
      let (es, broken) = b.entries req.body in
      let (outcome, disk) = extract_build_context b.disk ctx_dir broken es [] in
      without_dir ctx_dir (extracted outcome (run_build name dockerfile ctx_dir args) w)

  unfoldable pub dockerfile_of : Request → Text
  dockerfile_of req = if req.dockerfile == t "" then t "Dockerfile" else req.dockerfile

  unfoldable pub in_temp_dir : Text → Request → Dict Text → Handler
  in_temp_dir name req args w =
      let root = join s.deployer.data_dir (t "build-tmp") in
      if s.deployer.mkdir_all root
      then elim (b.temp_dir root) [
        | none ↦ refuse internal_error w
        | some ctx_dir ↦ build_in name req (dockerfile_of req) args ctx_dir w
      ]
      else refuse internal_error w

  unfoldable pub handle_build : Text → Request → Handler
  handle_build name req = for_app name λ w. elim (parse_build_args_header s.codec req.build_args) [
    | err e ↦ refuse bad_request w
    | ok args ↦ in_temp_dir name req args w
  ]
