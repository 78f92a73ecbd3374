-- ===== src/Tests/Table.antt =====
-- Runs of the table of clients.
use pseudo.Prelude.{true}
use pseudo.Server.Clients.{Table, start, open_client}
use pseudo.Server.ClientTable.{IsValid, start-IsValid, open_client-IsValid}

-- the listening socket 4, and a client on descriptor 9
abbrev one_client : Table
one_client = (open_client true 9 (start 4 77)).1

one_client-IsValid : IsValid one_client
one_client-IsValid = open_client-IsValid true 9 (start 4 77) (start-IsValid 4 77)
