-- ===== src/Lib.antt =====
-- A model of the Zephyr onboarding module: a device that joins a Wi-Fi network with the help of
-- its own access point, a captive portal and Bluetooth, keeps its settings in a persistent store
-- and updates its firmware.
--
-- The parts and their files, with paths from the root of the repository:
--   Base             numbers, lists, C strings and buffers. A C int is ℤ, with `pos n` for n and
--                    `negsuc n` for -(n + 1). A write out of an array, an int overflow and a call
--                    of a null pointer are undefined behaviour: `none`, or a constructor of the
--                    result.
--   Web              src/ob_web_server.c and include/ob_web_server.h.
--     Web.Net        the sockets, as a record of operations over the state of the world
--     Web.Page       web_page_t
--     Web.Send       sendall
--     Web.Request    client_conn_handler: Name (the request line), Length (Content-Length) and
--                    Head (the loop over received bytes) for the three things that the loop does
--                    with a byte, and Serve for the switch behind it. Path, FileName, Search,
--                    ContentLength, HeadEnd, HeadSearch, Replies and Pages are about these, in
--                    this order.
--     Web.Post       ob_ws_process_post: Rounds is the code, Form and Fields are about forms
--     Web.Register   ob_ws_register_web_page, ob_web_server_display_home
--     Web.Menu       create_menu and CreateHeader200
--     Web.Slots      get_free_slot, process_tcp and the loop of process_tcp4
--     Web.Listening  setup, process_tcp4 and start_listener
--     Web.Listening6 process_tcp6
--     Web.Threads    the threads of the handlers and their slots, as a step relation.
--                    Threads.Agree and Threads.Safety are about these.
--     Web.Life       init_web_server, start_web_server and its work, stop_web_server and
--                    ob_web_event_handler, as acts on the state of the server. Life.Running
--                    and Life.Network are about the network, Life.Credentials about TLS.
--   Wifi             src/ob_wifi.c and include/ob_wifi.h.
--     Wifi.Ssids     ssid_add_item, handle_wifi_scan_result; the linked list is a list
--     Wifi.Chain     the same list in memory, with ssid_free_item and ssid_init_list: Cells says how
--                    a chain stands for a list; Add, Link, Scan, Free and Freed are about it.
--     Wifi.Mac       Mac2String, get_mac_address and the name of the access point
--     Wifi.State     the file's variables, and the network stack as a record of operations
--     Wifi.Ap        ob_wifi_ap_enable, ob_wifi_ap_disable and the work item that starts it
--     Wifi.Events    the event handlers; `take_sem` handles events until a token is there
--     Wifi.Connect   ob_wifi_connect
--     Wifi.Lifecycle ob_wifi_scan, ob_wifi_init, ob_wifi_deinit
--     Wifi.Config    the host name and the preconfigured network of ob_wifi_init
--     Wifi.Listing, Wifi.Outcome, Wifi.Scan and Wifi.AccessPoint are about these.
--   Nvs              src/ob_nvs_data.c, over the settings subsystem
--   Certs            src/ob_certs.c
--   Ota              src/ob_ota.c, over the function table of a provider
--   Bluetooth        src/ob_bluetooth.c: foreach_obb, ble_state_machine and the callbacks.
--                    Runs is about all orders of its events.
--   Portal           src/ob_captive_portal.c: client_scan_done
--     Portal.Setup   post_wifi_setup_page, over Web.Post, Nvs and Web.Register
--     Portal.Page    display_wifi_setup_page and ob_cp_init, with the buffer of the networks and
--                    its semaphore. Portal.Shown and Portal.Home are about these.
--     Portal.Race    the page on several threads, as a step relation
--     Portal.Forms   the form on several threads, as a step relation. Portal.Buffers and
--                    Portal.Alone are about one form at a time, Portal.Received and
--                    Portal.Rivals about two.
--     Portal.Request a request to the page of the portal, over Web.Request.Serve: the callback
--                    reads on from the socket, with the device's store as the world
--     Portal.Joined  such a request and the restart behind it
--     Portal.Restart the network of the form after a restart, over Wifi.Lifecycle
--   Gatt             src/ob_bluetooth_gatt.c
--     Gatt.Notify    the loop of send_ap_list_work_handler
--     Gatt.ApList    scan_complete, ob_update_ap_list and scan_and_update_list, with the state of
--                    the list that ob_wifi.c frees. Gatt.Networks is about these.
--     Gatt.Join      write_current_ap and ob_join_network, over Wifi.Connect and Nvs. Gatt.Buffer
--                    and Gatt.Outcome are about these.
--     Gatt.Restart   such a write and the restart behind it
--     Gatt.Service   obb_mode_gatt, over Bluetooth, and read_aps
--   Shell            src/ob_shell.c and src/ob_reboot.c
--     Shell.Values   the handlers that show and set a stored value
--     Shell.Commands the other handlers, and ob_reboot over Web.Life, Wifi and Ota.
--                    Shell.Outcome is about these.
--     Shell.Reset    the factory reset and the restart behind it
--   Tests            the theorems at concrete inputs
--
-- How they interact: the pages that an application registers (Web.Register) are searched by the
-- handler of a request (Web.Request.Serve), which calls their callbacks; a POST callback reads
-- its form by Web.Post; the answers go out by Web.Send. The Wi-Fi module reports its scans to a
-- callback, for which Portal formats them and Gatt keeps them; the Wi-Fi handler asks the same
-- flag of the access point that the web server asks for its home page. A network arrives by the
-- form of the portal, by a write of a Bluetooth peer or by the shell, and is kept by Nvs.
--
-- The operating system (sockets, network management, settings, scheduler, malloc) is not in the
-- repository: its operations are fields of records that the definitions take, and what the
-- theorems rely on is a named hypothesis (Web.Send.Sends, Nvs.Erases, Shell.Reset.Misses, Gatt.Notify.Notifies,
-- Gatt.Networks.Encodes, Shell.Values.Keeps, Portal.Restart.Stores, Wifi.Chain.Add.Allocates). Events of the network are
-- an explicit sequence, handled in their order while a thread waits.
--
-- Bounds and fuel: `send_rounds` is run with the length of the buffer, which is enough since a
-- send takes a byte at least. `decimal` is run with more rounds than a number has digits.
-- `post_rounds` is run with the Content-Length, `try_connect` with the 20 tries and
-- `foreach_rounds` with the 4 entries that the loops of the code have. `notify_rounds` is run
-- with the length of the list and the number of times that the stack is out of buffers. The
-- loops of Wifi.Chain are run with more rounds than the chain has items.
--
-- Not modelled: log messages, the ready LED, a server over both versions of IP at once, the
-- priorities of the threads and what k_thread_start does to a thread that was aborted,
-- CONFIG_ESP32_STA_AUTO_DHCP, the tables of the shell and of the GATT service.
-- In Web.Threads a handler receives, answers and closes its socket in one step, but for a receive
-- that fails, and returns in another; behind an accept into the slot of a thread that has not
-- returned, nothing is followed. JSON is
-- read and written by the operating system's library, whose calls are parameters. Reads past an
-- array that lacks its NUL are not modelled in the request: after a path of exactly 32 bytes with
-- no blank behind it, filename has none.
pub mod Base
pub mod Bluetooth
pub mod Certs
pub mod Gatt
pub mod Nvs
pub mod Ota
pub mod Portal
pub mod Shell
pub mod Tests
pub mod Web
pub mod Wifi
