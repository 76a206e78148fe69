-- ===== src/SocketUtil.antt =====
-- client/src/socket_util.c: what the functions that prepare a socket return, for what the system
-- calls that they make return; a failed call is -1.
use ws25_np.Prelude.{if◌then◌else◌}
use ws25_np.Prelude.Int.{ℤ, negsuc, pos, ◌==ℤ◌}
use ws25_np.Prelude.Run.{M, ◌>>◌, pure}
use ws25_np.System.{World, emit, close}

module _ {S : Type 0} where
  -- `socket` and `bind`.
  unfoldable pub create_udp_socket : (socket bind : ℤ) → M (World S) ℤ
  create_udp_socket socket bind =
      if socket ==ℤ negsuc 0
      then pure (negsuc 0)
      else if bind ==ℤ negsuc 0
      then (emit (close socket) >> pure (negsuc 0))
      else pure socket

  -- `socket`
  unfoldable pub create_tcp_socket : (socket : ℤ) → M (World S) ℤ
  create_tcp_socket socket = if socket ==ℤ negsuc 0 then pure (negsuc 0) else pure socket

  -- `setsockopt`, `bind` and `listen`.
  unfoldable pub bind_listen_tcp_socket : (setsockopt bind listen : ℤ) → M (World S) ℤ
  bind_listen_tcp_socket setsockopt bind listen =
      if setsockopt ==ℤ negsuc 0
      then pure (negsuc 0)
      else if bind ==ℤ negsuc 0
      then pure (negsuc 0)
      else if listen ==ℤ negsuc 0
      then pure (negsuc 0)
      else pure (pos 0)

  -- `connect`
  unfoldable pub connect_socket : (connect : ℤ) → M (World S) ℤ
  connect_socket connect = if connect ==ℤ negsuc 0 then pure (negsuc 0) else pure (pos 0)
