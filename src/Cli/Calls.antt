-- ===== src/Cli/Calls.antt =====
-- The calls of internal/cli/client.go.
use oakberryio.Prelude.{ℕ, Bool, Option, List, [], ◌∷◌, ◌++◌, Text, t, ◌==◌, nat_eq, if◌then◌else◌}
use oakberryio.Prelude.Int.{ℤ}
use oakberryio.Prelude.Dict.{Dict}
use oakberryio.Prelude.Results.{
  Error, Result, ok, err, bad_status, read_failed, bad_json, from_option, ◌>>=◌,
}
use oakberryio.Store.{Machine}
use oakberryio.Store.Apps.{AppInfo}
use oakberryio.Wire.{Method, get, post, put, delete, Request, Response, Codec}
use oakberryio.Cli.Transport.{Surroundings, Transport, new_request, do_request}
use oakberryio.Cli.Stream.{Followed, follow, follow_build}

-- A call that failed before there was a stream printed nothing.
abbrev pub silent : {A : Type 0} → Error → Followed A
silent why = record { printed = []; outcome = err why }

-- resp, err := c.Do(req), and the check of the status
unfoldable pub expect_status : Surroundings → ℕ → Request → Result Response
expect_status here status req =
    do_request here req >>= λ resp. if resp.status == status then ok resp else err bad_status

abbrev pub streaming : {A : Type 0} → (Response → Followed A) → Result Response → Followed A
streaming read (err why) = silent why
streaming read (ok resp) = read resp

unfoldable pub stream_progress : Surroundings → Result Request → Followed (Unit {0})
stream_progress here req = streaming (λ resp. follow resp.body) (req >>= expect_status here 200)

module _ (here : Surroundings) (codec : Codec) (tr : Transport) where
  unfoldable pub app_path : Text → Text → Text
  app_path app rest = t "/apps/" ++ (here.path_escape app ++ rest)

  unfoldable pub deploy : Text → Text → Text → Followed (Unit {0})
  deploy app image toml =
      let body = codec.write_deploy (record { image = image; config = toml; owner = t "" }) in
      stream_progress here (new_request here tr post (app_path app (t "/deploy")) body)

  unfoldable pub restart : Text → Followed (Unit {0})
  restart app = stream_progress here (new_request here tr post (app_path app (t "/restart")) [])

  unfoldable pub scale : Text → ℤ → ℤ → Followed (Unit {0})
  scale app memory_mb cpus =
      let body = codec.write_scale (record { memory_mb = memory_mb; cpus = cpus }) in
      stream_progress here (new_request here tr post (app_path app (t "/scale")) body)

  -- X-Oak-Build-Args travels where there is an argument.
  unfoldable pub build_args_header : Dict Text → Text
  build_args_header [] = t ""
  build_args_header (kv ∷ kvs) = codec.write_dict (kv ∷ kvs)

  abbrev with_build_headers : Text → Dict Text → Request → Request
  with_build_headers dockerfile args req = record req {
    dockerfile = dockerfile;
    build_args = build_args_header args;
  }

  unfoldable pub build_remote : Text → Text → Dict Text → Text → Followed Text
  build_remote app dockerfile args context_tar =
      let req = new_request here tr post (app_path app (t "/build")) context_tar in
      streaming (λ resp. follow_build resp.body)
        (req >>= λ r. expect_status here 200 (with_build_headers dockerfile args r))

  -- A call whose answer is its status
  unfoldable pub command : Method → Text → Text → ℕ → Result (Unit {0})
  command method path body status =
      new_request here tr method path body >>= expect_status here status >>= λ ignored. ok tt

  -- A call whose answer is JSON
  unfoldable pub query : {A : Type 0} → (Text → Option A) → Text → Text → Result A
  query read path params =
      new_request here tr get path []
      >>= (λ req. expect_status here 200 (record req { query = params }))
      >>= λ resp. from_option bad_json (read resp.body.bytes)

  unfoldable pub destroy : Text → Result (Unit {0})
  destroy app = command delete (app_path app (t "")) [] 204

  unfoldable pub secret_keys : Text → Result (List Text)
  secret_keys app = query codec.read_texts (app_path app (t "/secrets")) (t "")

  unfoldable pub unset_secrets : Text → List Text → Result (Unit {0})
  unset_secrets app keys = command delete (app_path app (t "/secrets")) (codec.write_keys keys) 204

  unfoldable pub set_secrets : Text → Dict Text → Result (Unit {0})
  set_secrets app kv = command put (app_path app (t "/secrets")) (codec.write_dict kv) 204

  unfoldable pub create_volume : Text → Text → ℤ → Result (Unit {0})
  create_volume app name size_gb =
      let body = codec.write_volume (record { name = name; size_gb = size_gb }) in
      command post (app_path app (t "/volumes")) body 201

  unfoldable pub apps : Result (List Text)
  apps = query codec.read_texts (t "/apps") (t "")

  unfoldable pub apps_detailed : Result (List AppInfo)
  apps_detailed = query codec.read_infos (t "/apps") (t "detail=1")

  unfoldable pub machines : Text → Result (List Machine)
  machines app = query codec.read_machines (app_path app (t "/machines")) (t "")

  -- What is copied to `out`, and the outcome: an error that ends the copy counts without -f only.
  unfoldable pub logs : Text → Bool → Followed (Unit {0})
  logs app tail_on =
      let req = new_request here tr get (app_path app (t "/logs")) [] in
      let params = if tail_on then t "follow=1" else t "" in
      streaming
        (λ resp. record {
          printed = resp.body.bytes ∷ [];
          outcome = if resp.body.broken then if tail_on then ok tt else err read_failed else ok tt;
        })
        (req >>= λ r. expect_status here 200 (record r { query = params }))
