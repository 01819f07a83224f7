-- ===== src/Tunnel.antt =====
-- internal/tunnel/tunnel.go: the cloudflared configuration that Render writes.
use oakberryio.Prelude.{List, [], ◌∷◌, ◌++◌, Text, t}

pub record Route : Type 0 where
  pub hostname : Text
  pub service : Text

-- One ingress rule for each route, in order.
unfoldable pub render_routes : List Route → Text
render_routes [] = []
render_routes (r ∷ rs) =
    t "  - hostname: "
    ++ (r.hostname ++ (b'\n' ∷ (t "    service: " ++ (r.service ++ (b'\n' ∷ render_routes rs)))))

-- Render: the header, the rules, and the catch-all.
unfoldable pub render : Text → Text → List Route → Text
render tunnel_id creds_file routes =
    t "tunnel: "
    ++ (tunnel_id
        ++ (b'\n'
            ∷ (t "credentials-file: "
                ++ (creds_file
                    ++ (b'\n'
                        ∷ (t "ingress:"
                            ++ (b'\n'
                                ∷ (render_routes routes
                                    ++ (t "  - service: http_status:404" ++ b'\n' ∷ [])))))))))
