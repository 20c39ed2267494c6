-- ===== src/Mysql.antt =====
-- gateway/include/mysql_pool.h and gateway/src/mysql_pool.cpp. A connection is a handle, a number;
-- libmysqlclient is a parameter: what each of its calls gives is an argument.
pub mod Pool
mod Tests
