-- ===== src/Gates/Visibility.antt =====
-- Which tools a caller is shown, and which calls the role gate lets through.
use beherouter.Prelude.{String, ◌≡◌, arith}
use beherouter.Identity.{Host, RequestIdentity}
use beherouter.Gates.{Gates, visible, check_visible, succeeds}

-- What `tools/list` and `search_tools` show a caller is what `describe_tool` answers them about, for
-- every set of gates, caller and tool: a tool is shown exactly when no refusal is raised for it.
pub visible-check_visible :
    (host : Host) (g : Gates) (req : RequestIdentity) (name : String)
    → visible host g req name ≡ succeeds (check_visible host g req name)
unfolding visible check_visible
visible-check_visible host g req name = ground arith
