-- ===== src/Client/Examples.antt =====
-- Exceptions that are sent and received.
use xforgebox.Base.{◌≡◌, refl, [], ◌∷◌}
use xforgebox.Errors.{err, path_escape_error, container_start_error, forge_error}
use xforgebox.Services.Files.Paths.{codes}
use xforgebox.Client.Streams.{sse, subscribe}
use xforgebox.Client.Delivery.{one_line, subscribe-sse}
use xforgebox.Client.Errors.{nearest, read_ones, check_ok, respond, check_ok-respond}

-- A path outside the workspace keeps its class; that of a container that could not be started is
-- lost.
handled : check_ok (200 ∷ 201 ∷ []) (respond path_escape_error) ≡ err path_escape_error
unfolding nearest
handled = check_ok-respond path_escape_error read_ones

unhandled : check_ok (200 ∷ 201 ∷ []) (respond container_start_error) ≡ err forge_error
unfolding nearest
unhandled = check_ok-respond container_start_error read_ones

-- Two events in three chunks, one of which ends within a frame's empty line.
subscribe-sse_example :
    subscribe [] (codes "event: a\ndata: {}\n" ∷ codes "\nevent: b\nda" ∷ codes "ta: [1]\n\n" ∷ [])
    ≡ codes "{}" ∷ codes "[1]" ∷ []
unfolding sse one_line
subscribe-sse_example =
    subscribe-sse ((codes "a", codes "{}") ∷ (codes "b", codes "[1]") ∷ []) _
      (refl, refl, (refl, refl, tt)) refl
