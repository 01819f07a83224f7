-- ===== src/Tests/Codes.antt =====
-- Runs of the codecs: addresses, and the status that oak-init prints.
use oakberryio.Prelude.{◌≡◌, refl, ℕ, arith, some, t, nat_eq}
use oakberryio.Prelude.Int.{pos}
use oakberryio.Prelude.Results.{ok}
use oakberryio.Net.Ip.{Octets, parse_ip4, print_ip4, ip_to_uint32, uint32_to_ip}
use oakberryio.Vm.{mac_from_ip}
use oakberryio.Deploy.ReleaseCommand.{last_child_exit_status}
use oakberryio.Deploy.ReleaseCommand.Marker.{printed, last_child_exit_status-printed}

abbrev gateway : Octets
gateway = record { a = 10; b = 200; c = 0; d = 1 }

abbrev addr : ℕ
addr = 180879362

its_mac : mac_from_ip (uint32_to_ip addr) ≡ ok (t "06:00:0a:c8:00:02")
unfolding oakberryio.Net.Ip.parse_fields oakberryio.Net.Ip.parse_ip4 oakberryio.Net.Ip.print_ip4
    oakberryio.Net.Ip.big_endian oakberryio.Net.Ip.put_big_endian oakberryio.Net.Ip.ip_to_uint32
    oakberryio.Net.Ip.uint32_to_ip oakberryio.Text.Decimal.itoa oakberryio.Text.Decimal.is_digit
    oakberryio.Text.Decimal.read_digits oakberryio.Vm.hex_digit oakberryio.Vm.hex2
    oakberryio.Vm.mac_of oakberryio.Vm.mac_from_ip nat_eq
its_mac = refl

last_child_exit_status-printed_example :
    last_child_exit_status (printed (t "migrated") 3) ≡ some (pos 3)
last_child_exit_status-printed_example =
    last_child_exit_status-printed (t "migrated") 3 (omega arith)
