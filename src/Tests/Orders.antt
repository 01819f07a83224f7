-- ===== src/Tests/Orders.antt =====
-- Runs of Deploy, Destroy and the watch of a machine.
use oakberryio.Prelude.{
  ◌≡◌, refl, ap, ℕ, Bool, true, false, Option, none, some, List, [], ◌∷◌, Text, t, map, All, ◌==◌,
  text_eq, nat_eq,
}
use oakberryio.Prelude.Results.{ok}
use oakberryio.Appconfig.{Config}
use oakberryio.Store.{Db, Machine, Release}
use oakberryio.Text.Decimal.{read_digits, is_digit}
use oakberryio.Paths.{split_on}
use oakberryio.Table.{find_by}
use oakberryio.Store.Machines.{delete_machine, state_eq, coalesce}
use oakberryio.Deploy.GuestEnv.{has_prefix}
use oakberryio.Deploy.{Env, World, Handle}
use oakberryio.Deploy.Boot.{boot_from_release}
use oakberryio.Deploy.Boot.Outcome.{Serves}
use oakberryio.Deploy.Orders.{deploy}
use oakberryio.Deploy.Orders.Spared.{Spared}
use oakberryio.Deploy.Orders.Outcome.{deploy-Serves}
use oakberryio.Deploy.ReleaseCommand.{
  run_release_command, await_status, check_status, last_child_exit_status, last_marker, after_last,
  int_prefix, atoi, read_number,
}
use oakberryio.Deploy.Destroy.{destroy}
use oakberryio.Deploy.Destroy.Outcome.{Gone, destroy-Gone}
use oakberryio.Deploy.Watch.{watch_machine, stop_all}
use oakberryio.Deploy.Watch.Steps.{watched, watch_all, watch_machine-db, stop_all-db}
use oakberryio.Deploy.Reconcile.{reconcile}
use oakberryio.Deploy.Reconcile.Tracked.{tracked}
use oakberryio.Deploy.Reconcile.Outcome.{reconcile-Tracked}
use oakberryio.Tests.{host, config, one_app, world}

abbrev release : Release
release = record {
  id = 1;
  app = t "web";
  image = t "i";
  rootfs = t "/r";
  node_id = t "local";
  cmd = t "{}";
  env = t "[]";
  workdir = t "/";
  created_at = 3;
}

abbrev web : Config
web = config (t "web") (t "")

deploy_runs : (deploy (host []) web (t "i") world).0 ≡ ok (t "010203040506")
unfolding oakberryio.Effects.pure oakberryio.Effects.fail oakberryio.Effects.lift
    oakberryio.Effects.gets oakberryio.Effects.asks oakberryio.Effects.finally
    oakberryio.Effects.on_error oakberryio.Effects.modify oakberryio.Effects.◌>>=◌
    oakberryio.Deploy.State.record_effect oakberryio.Deploy.State.emit
    oakberryio.Deploy.State.with_db oakberryio.Deploy.State.write_db
    oakberryio.Deploy.State.write_db_with oakberryio.Deploy.State.set_handle
    oakberryio.Deploy.State.get_handle oakberryio.Deploy.State.remove_handle
    oakberryio.Deploy.State.cache_config oakberryio.Deploy.State.itoa_int
    oakberryio.Deploy.State.hex oakberryio.Deploy.State.new_machine_id
    oakberryio.Deploy.State.tap_name oakberryio.Deploy.State.subnet_for_app
    oakberryio.Deploy.State.vsock_socket_path oakberryio.Deploy.State.kernel
    oakberryio.Deploy.State.socket_dir oakberryio.Deploy.State.creds_file
    oakberryio.Deploy.State.decode_release_cmd oakberryio.Deploy.State.decode_release_env
    oakberryio.Deploy.State.ensure_bridge oakberryio.Deploy.State.mkdir_all
    oakberryio.Deploy.State.remove_stale oakberryio.Deploy.State.app_config
    oakberryio.Deploy.Volumes.device oakberryio.Deploy.Volumes.by_name
    oakberryio.Deploy.Volumes.match_mounts oakberryio.Deploy.Volumes.resolve_volumes
    oakberryio.Deploy.GuestEnv.has_prefix oakberryio.Deploy.GuestEnv.env_slice_has_key
    oakberryio.Deploy.GuestEnv.slice_onto oakberryio.Deploy.GuestEnv.env_slice_to_map
    oakberryio.Deploy.GuestEnv.has_key oakberryio.Deploy.GuestEnv.default_port
    oakberryio.Deploy.GuestEnv.default_path oakberryio.Deploy.GuestEnv.decrypt_onto
    oakberryio.Deploy.GuestEnv.with_secrets oakberryio.Deploy.GuestEnv.build_guest_env
    oakberryio.Deploy.Ingress.service_url oakberryio.Deploy.Ingress.machine_routes
    oakberryio.Deploy.Ingress.collect_routes oakberryio.Deploy.Ingress.api_route
    oakberryio.Deploy.Ingress.apply oakberryio.Deploy.Ingress.apply_tunnel
    oakberryio.Deploy.Health.beat_line oakberryio.Deploy.Health.poll_rounds
    oakberryio.Deploy.Health.timeout oakberryio.Deploy.Health.interval
    oakberryio.Deploy.Health.await_healthy oakberryio.Deploy.Launch.image_load
    oakberryio.Deploy.Launch.mark_failed oakberryio.Deploy.Launch.delete_row
    oakberryio.Deploy.Launch.stop_handle oakberryio.Deploy.Launch.log_dir
    oakberryio.Deploy.Launch.machine_guest oakberryio.Deploy.Launch.machine_spec
    oakberryio.Deploy.Launch.remove_stale_sockets oakberryio.Deploy.Launch.describe
    oakberryio.Deploy.Launch.start oakberryio.Deploy.Boot.stop_machine oakberryio.Deploy.Boot.is_old
    oakberryio.Deploy.Boot.stop_where oakberryio.Deploy.Boot.stop_old_machines
    oakberryio.Deploy.Boot.allocate oakberryio.Deploy.Boot.tear_down
    oakberryio.Deploy.Boot.announce_wait oakberryio.Deploy.Boot.launch
    oakberryio.Deploy.Boot.is_restart oakberryio.Deploy.Boot.tolerate_restart
    oakberryio.Deploy.Boot.publish oakberryio.Deploy.Boot.cut_over
    oakberryio.Deploy.Boot.boot_from_release oakberryio.Store.Apps.upsert_app
    oakberryio.Store.Apps.apps oakberryio.Store.Apps.app_config oakberryio.Store.Apps.set_app_owner
    oakberryio.Store.Apps.app_owner oakberryio.Store.Apps.apps_detailed
    oakberryio.Store.Apps.delete_app oakberryio.Store.Machines.state_eq
    oakberryio.Store.Machines.insert_machine oakberryio.Store.Machines.alloc_and_insert_machine
    oakberryio.Store.Machines.pid_arg oakberryio.Store.Machines.coalesce
    oakberryio.Store.Machines.set_machine_state oakberryio.Store.Machines.delete_machine
    oakberryio.Store.Machines.newest_first oakberryio.Store.Machines.machines_for_app
    oakberryio.Store.Machines.running_machines oakberryio.Store.Machines.machine
    oakberryio.Store.Subnets.smallest_free oakberryio.Store.Subnets.smallest_free_subnet_idx
    oakberryio.Store.Subnets.subnet_for_owner oakberryio.Store.Subnets.owner_for_subnet
    oakberryio.Store.Ipam.subnet_base oakberryio.Store.Ipam.used_addrs oakberryio.Store.Ipam.is_used
    oakberryio.Store.Ipam.first_free oakberryio.Store.Ipam.alloc_ip
    oakberryio.Store.Secrets.put_secret oakberryio.Store.Secrets.secrets
    oakberryio.Store.Secrets.delete_secrets_for_app oakberryio.Store.Secrets.delete_secret
    oakberryio.Store.Volumes.create_volume oakberryio.Store.Volumes.volumes
    oakberryio.Store.Volumes.delete_volumes_for_app oakberryio.Table.has oakberryio.Table.find_by
    oakberryio.Table.select_by oakberryio.Table.delete_by oakberryio.Table.update_by
    oakberryio.Net.Ip.parse_fields oakberryio.Net.Ip.parse_ip4 oakberryio.Net.Ip.print_ip4
    oakberryio.Net.Ip.big_endian oakberryio.Net.Ip.put_big_endian oakberryio.Net.Ip.ip_to_uint32
    oakberryio.Net.Ip.uint32_to_ip oakberryio.Vm.hex_digit oakberryio.Vm.hex2 oakberryio.Vm.mac_of
    oakberryio.Vm.mac_from_ip oakberryio.Mmds.argv oakberryio.Mmds.split_env
    oakberryio.Mmds.add_pairs oakberryio.Mmds.merged oakberryio.Mmds.value_or_empty
    oakberryio.Mmds.merge_env oakberryio.Text.Decimal.itoa oakberryio.Text.Decimal.is_digit
    oakberryio.Text.Decimal.read_digits oakberryio.Paths.split_on oakberryio.Paths.join_with
    oakberryio.Paths.push_piece oakberryio.Paths.push_pieces oakberryio.Paths.reverse_onto
    oakberryio.Paths.is_abs oakberryio.Paths.clean oakberryio.Paths.join oakberryio.Prelude.text_eq
    oakberryio.Prelude.nat_eq oakberryio.Prelude.sort oakberryio.Prelude.le_text
    oakberryio.Prelude.Dict.lookup oakberryio.Prelude.Dict.insert oakberryio.Prelude.Dict.insert_all
    oakberryio.Prelude.Dict.keys oakberryio.Deploy.Orders.save_config
    oakberryio.Deploy.Orders.rootfs_path oakberryio.Deploy.Orders.build_rootfs
    oakberryio.Deploy.Orders.new_release oakberryio.Deploy.Orders.record_release
    oakberryio.Deploy.Orders.gate oakberryio.Deploy.Orders.deploy oakberryio.Deploy.Orders.restart
    oakberryio.Deploy.Orders.or_keep oakberryio.Deploy.Orders.scaled oakberryio.Deploy.Orders.scale
    oakberryio.Store.Releases.next_id oakberryio.Store.Releases.insert_release
    oakberryio.Store.Releases.release_by_id oakberryio.Store.Releases.largest_id
    oakberryio.Store.Releases.latest_release oakberryio.Store.Releases.delete_releases_for_app
    oakberryio.Deploy.ReleaseCommand.after_last oakberryio.Deploy.ReleaseCommand.last_marker
    oakberryio.Deploy.ReleaseCommand.int_prefix oakberryio.Deploy.ReleaseCommand.read_number
    oakberryio.Deploy.ReleaseCommand.minus oakberryio.Deploy.ReleaseCommand.atoi
    oakberryio.Deploy.ReleaseCommand.last_child_exit_status
    oakberryio.Deploy.ReleaseCommand.await_status oakberryio.Deploy.ReleaseCommand.check_status
    oakberryio.Deploy.ReleaseCommand.await_exit oakberryio.Deploy.ReleaseCommand.run_machine
    oakberryio.Deploy.ReleaseCommand.run_release_command
deploy_runs = refl

deploy-Serves_example :
    Serves (t "web") (t "010203040506") (deploy (host []) web (t "i") world).1.db
deploy-Serves_example =
    deploy-Serves (host []) web (t "i") world (deploy (host []) web (t "i") world).1
      (t "010203040506") (λ i. (deploy_runs i, (deploy (host []) web (t "i") world).1))

-- The guest's log ends with status 1 at every reading.
abbrev failing_log : Text
failing_log = t "oak-init: child-exit status=1"

abbrev migrating : Config
migrating = config (t "web") (t "migrate")

destroy-Gone_example : Gone (t "web") (destroy (host []) (t "web") world).1.db
destroy-Gone_example = destroy-Gone (host []) (t "web") world

abbrev old_handle : Handle
old_handle = record { machine = t "aa"; pid = 5 }

watch_machine-db_example :
    (watch_machine (host []) (t "aa") old_handle world).db ≡ delete_machine (t "aa") one_app
unfolding watched find_by text_eq nat_eq state_eq coalesce
watch_machine-db_example = watch_machine-db (host []) (t "aa") old_handle world

stop_all-db_example :
    (watch_all (host []) ((t "aa", old_handle) ∷ []) (stop_all world)).db ≡ one_app
stop_all-db_example = stop_all-db (host []) ((t "aa", old_handle) ∷ []) world

reconcile-Tracked_example :
    (map (λ (m : Machine). m.id) (reconcile (host []) world).1.db.machines ≡ t "aa" ∷ [])
    × All
        (λ m. tracked (reconcile (host []) world).1.handles m ≡ true)
        (reconcile (host []) world).1.db.machines
reconcile-Tracked_example = reconcile-Tracked (host []) world
